-- ===== src/Delivery/Hub/Pending.antt =====
-- What `pending` of internal/delivery/hub.go counts.
use gopherharness.Base.{
  ℕ, zero, suc, ◌+◌, ◌-◌, ◌≤◌, ◌≡◌, refl, sym, ap, subst, arith, String, Bool, ◌||◌, not, Option,
  none, some, List, [], ◌∷◌, ◌++◌, is_empty, is_some, ltb, length, length-append, if_rule, if_cases,
  some_inj, inl, inr, Option-cases,
}
use gopherharness.Base.Table.{
  lookup, insert, Entries, Entries-insert, Entries-lookup, sum_by, sum_by-insert, weight_at,
}
use gopherharness.Delivery.{Message}
use gopherharness.Delivery.Hub.{
  Endpoint, Hub, Refusal, new_endpoint, register, post, post_to, pick, behind, give_up, put, accept,
  take_from, take, sent_by, sent, drain_from, drain, Step, gives_up, accepts, takes, returns,
  drains, closes, cancels, step,
}

abbrev pub one : Option Message → ℕ
one none = 0
one (some m) = 1

-- What an outlet still owes: the messages in its queue and the one that is being sent.
abbrev pub owed : Endpoint → ℕ
owed e = length e.queue + one e.busy

pub record IsExact (h : Hub) : Type 0 where
  pub exact : h.pending ≡ length h.posting + sum_by owed h.endpoints
  pub fits : Entries (λ k e. length e.queue ≤ h.capacity) h.endpoints

behind_back :
    (m : Message) (o : Option (Message × List Message)) {x : Message} {rest : List Message}
    → behind m o ≡ some (x, rest)
    → (y : Message) × (ys : List Message) × (o ≡ some (y, ys)) × (rest ≡ m ∷ ys)
behind_back m none e = absurd (cc)
behind_back m (some (y, ys)) e = (y, ys, refl, sym (ap (λ p. p.1) (some_inj e)))

pick-length :
    (i : ℕ) (ms : List Message) {m : Message} {rest : List Message}
    → pick i ms ≡ some (m, rest)
    → length ms ≡ suc (length rest)
unfolding pick
pick-length n [] e = absurd (cc)
pick-length zero (m ∷ ms) e = ap (λ p. suc (length p.1)) (some_inj e)
pick-length (suc n) (m ∷ ms) e =
    let (y, ys, q, r) = behind_back m (pick n ms) e in
    omega (arith, pick-length n ms q, ap length r)

module _ (h : Hub) (ok : IsExact h) where
  replaced :
      (name : String) (e : Endpoint)
      → sum_by owed (insert name e h.endpoints) + weight_at owed (lookup name h.endpoints)
        ≡ sum_by owed h.endpoints + owed e
  replaced name e = sum_by-insert owed name e h.endpoints

  kept :
      (name : String) (e : Endpoint)
      → length e.queue ≤ h.capacity
      → Entries (λ k (x : Endpoint). length x.queue ≤ h.capacity) (insert name e h.endpoints)
  kept name e le =
      Entries-insert (λ k (x : Endpoint). length x.queue ≤ h.capacity) name e h.endpoints le ok.fits

  found_fits :
      (name : String) {e : Endpoint}
      → lookup name h.endpoints ≡ some e
      → length e.queue ≤ h.capacity
  found_fits name q =
      Entries-lookup (λ k (x : Endpoint). length x.queue ≤ h.capacity) name h.endpoints ok.fits q

  pub register-IsExact :
      (name : String) (has_outlet : Bool) → IsExact (register name has_outlet h).1
  unfolding register
  register-IsExact name has_outlet =
      let P : Option Refusal × Hub → Type 0 = λ p. IsExact p.1 in
      if_rule P h.sealed (λ a. ok)
        (λ a.
          if_rule P (is_empty name || not has_outlet) (λ b. ok)
            (λ b.
              if_rule P (is_some (lookup name h.endpoints)) (λ c. ok)
                (λ c. record {
                  exact =
                      let none_there : lookup name h.endpoints ≡ none =
                        (elim (Option-cases (lookup name h.endpoints)) [
                          | inl q ↦ q
                          | inr (e, q) ↦ absurd (ground (arith, c, q))
                        ]) in
                      omega (arith, ok.exact, (rw none_there at (replaced name new_endpoint)));
                  fits = kept name new_endpoint (omega arith);
                })))

  pub post-IsExact : (m : Message) → IsExact (post m h).1
  unfolding post
  post-IsExact m =
      if_rule (λ (p : Option Refusal × Hub). IsExact p.1) h.sealed (λ a. ok)
        (λ a. to (lookup m.source.channel h.endpoints))
    where
      to : (o : Option Endpoint) → IsExact (post_to o m h).1
      to none = ok
      to (some e) =
          if_rule (λ (p : Option Refusal × Hub). IsExact p.1) (is_empty m.source.chat_id) (λ b. ok)
            (λ b. record {
              exact = ground (arith, ok.exact, length-append h.posting (m ∷ []));
              fits = ok.fits;
            })

  give_up-IsExact : (i : ℕ) {t : Hub} → give_up (pick i h.posting) h ≡ some t → IsExact t
  give_up-IsExact i {t = t} e = from (pick i h.posting) refl e
    where
      from :
          (o : Option (Message × List Message))
          → pick i h.posting ≡ o
          → give_up o h ≡ some t
          → IsExact t
      from none q e = absurd (cc)
      from (some (m, ms)) q e =
          subst IsExact (some_inj e)
            (record { exact = omega (arith, ok.exact, pick-length i h.posting q); fits = ok.fits })

  put-IsExact :
      (o : Option Endpoint) (m : Message) (ms : List Message) {t : Hub}
      → lookup m.source.channel h.endpoints ≡ o
      → length h.posting ≡ suc (length ms)
      → put o m ms h ≡ some t
      → IsExact t
  put-IsExact none m ms q le e = absurd (cc)
  put-IsExact (some x) m ms q le e = elim (if_cases (ltb (length x.queue) h.capacity) e) [
    | inr (c, y) ↦ absurd (cc)
    | inl (c, y) ↦
        let x' : Endpoint = record x { queue = x.queue ++ m ∷ [] } in
        let longer : length x'.queue ≡ length x.queue + 1 =
          ground (arith, length-append x.queue (m ∷ [])) in
        subst IsExact (some_inj y) (record {
          exact = omega (arith, ok.exact, le, longer, (rw q at (replaced m.source.channel x')));
          fits = kept m.source.channel x' (ground (arith, longer, c));
        })
  ]

  accept-IsExact : (i : ℕ) {t : Hub} → accept (pick i h.posting) h ≡ some t → IsExact t
  accept-IsExact i {t = t} e = from (pick i h.posting) refl e
    where
      from :
          (o : Option (Message × List Message))
          → pick i h.posting ≡ o
          → accept o h ≡ some t
          → IsExact t
      from none q e = absurd (cc)
      from (some (m, ms)) q e =
          put-IsExact (lookup m.source.channel h.endpoints) m ms refl (pick-length i h.posting q) e

  module _ (name : String) (x : Endpoint) (found : lookup name h.endpoints ≡ some x) where
    swap-IsExact :
        (x' : Endpoint) (n : ℕ)
        → length x'.queue ≤ length x.queue
        → n + owed x ≡ h.pending + owed x'
        → IsExact (record h { endpoints = insert name x' h.endpoints; pending = n })
    swap-IsExact x' n le e = record {
      exact = omega (arith, ok.exact, e, (rw found at (replaced name x')));
      fits = kept name x' (omega (arith, le, found_fits name found));
    }

    counted : owed x ≤ h.pending
    counted = omega (arith, ok.exact, (rw found at (replaced name new_endpoint)))

    take_from-IsExact :
        (q : List Message) (b : Option Message) {t : Hub}
        → x.queue ≡ q
        → x.busy ≡ b
        → take_from q b name h ≡ some t
        → IsExact t
    take_from-IsExact [] b eq eb e = absurd (cc)
    take_from-IsExact (m ∷ q) (some y) eq eb e = absurd (cc)
    take_from-IsExact (m ∷ q) none eq eb e = subst IsExact (some_inj e) (
        swap-IsExact (record { queue = q; busy = some m }) h.pending (ground (arith, eq))
          (ground (arith, eq, eb)))

    sent_by-IsExact :
        (b : Option Message) {t : Hub} → x.busy ≡ b → sent_by b x name h ≡ some t → IsExact t
    sent_by-IsExact none eb e = absurd (cc)
    sent_by-IsExact (some m) eb e = subst IsExact (some_inj e) (
        swap-IsExact (record x { busy = none }) (h.pending - 1) (omega arith)
          (ground (arith, eb, counted)))

    drain_from-IsExact :
        (q : List Message) {t : Hub} → x.queue ≡ q → drain_from q x name h ≡ some t → IsExact t
    drain_from-IsExact [] eq e = absurd (cc)
    drain_from-IsExact (m ∷ q) eq e = subst IsExact (some_inj e) (
        swap-IsExact (record x { queue = q }) (h.pending - 1) (ground (arith, eq))
          (ground (arith, eq, counted)))

  take-IsExact :
      (o : Option Endpoint) (name : String) {t : Hub}
      → lookup name h.endpoints ≡ o
      → take o name h ≡ some t
      → IsExact t
  take-IsExact none name q e = absurd (cc)
  take-IsExact (some x) name q e = take_from-IsExact name x q x.queue x.busy refl refl e

  sent-IsExact :
      (o : Option Endpoint) (name : String) {t : Hub}
      → lookup name h.endpoints ≡ o
      → sent o name h ≡ some t
      → IsExact t
  sent-IsExact none name q e = absurd (cc)
  sent-IsExact (some x) name q e = sent_by-IsExact name x q x.busy refl e

  drain-IsExact :
      (o : Option Endpoint) (name : String) {t : Hub}
      → lookup name h.endpoints ≡ o
      → drain o name h ≡ some t
      → IsExact t
  drain-IsExact none name q e = absurd (cc)
  drain-IsExact (some x) name q e = elim (if_cases h.over e) [
    | inl (c, y) ↦ drain_from-IsExact name x q x.queue refl y
    | inr (c, y) ↦ absurd (cc)
  ]

  pub step-IsExact : (s : Step) {t : Hub} → step s h ≡ some t → IsExact t
  unfolding step
  step-IsExact (gives_up i) e = give_up-IsExact i e
  step-IsExact (accepts i) e = accept-IsExact i e
  step-IsExact (takes name) e = take-IsExact (lookup name h.endpoints) name refl e
  step-IsExact (returns name) e = sent-IsExact (lookup name h.endpoints) name refl e
  step-IsExact (drains name) e = drain-IsExact (lookup name h.endpoints) name refl e
  step-IsExact closes e = subst IsExact (some_inj e) (record { exact = ok.exact; fits = ok.fits })
  step-IsExact cancels e = subst IsExact (some_inj e) (record { exact = ok.exact; fits = ok.fits })
