-- ===== src/Durable/Atomic.antt =====
-- A transaction is all or nothing (internal/durable/file.go).
use gopherharness.Base.{◌≡◌, ◌≢◌, refl, subst, sym, some_inj, Option, none, some}
use gopherharness.Durable.{
  Disk, blocked, lost, unsynced, healthy, Verdict, refuse, accept, current, replace, update, read,
}

-- A property of a file's value; a file that does not exist has it by its zero value.
abbrev pub FileHas : {T : Type 0} → T → (T → Type 0) → Option T → Type 0
FileHas z P f = P (current z f)

-- What a callback keeps.
abbrev pub Keeps : {E A T : Type 0} → (T → Type 0) → Verdict E A T → Type 0
Keeps P (refuse e) = Unit
Keeps P (accept a t) = P t

module _ {E A T : Type 0} where
  replace-FileHas :
      (z : T) (P : T → Type 0) (v : Verdict E A T) (d : Disk) (f : Option T)
      → Keeps P v
      → FileHas z P f
      → FileHas z P (replace v d f).file
  replace-FileHas z P (refuse e) d f k h = h
  replace-FileHas z P (accept a t) blocked f k h = h
  replace-FileHas z P (accept a t) lost f k h = h
  replace-FileHas z P (accept a t) unsynced f k h = k
  replace-FileHas z P (accept a t) healthy f k h = k

  -- Whatever the disk does, and whether the callback accepts or refuses, a property that the
  -- callback keeps holds of the file after the transaction if it held before.
  pub update-FileHas :
      (z : T) (P : T → Type 0) (fn : T → Verdict E A T) (d : Disk) (f : Option T)
      → ((t : T) → P t → Keeps P (fn t))
      → FileHas z P f
      → FileHas z P (update z fn d f).file
  unfolding update
  update-FileHas z P fn blocked f keep h = h
  update-FileHas z P fn lost f keep h = replace-FileHas z P (fn (current z f)) lost f (keep _ h) h
  update-FileHas z P fn unsynced f keep h =
      replace-FileHas z P (fn (current z f)) unsynced f (keep _ h) h
  update-FileHas z P fn healthy f keep h =
      replace-FileHas z P (fn (current z f)) healthy f (keep _ h) h

  -- What an observed outcome says of the callback's verdict and of the file.
  abbrev pub Explains : Verdict E A T → Disk → Option T → Type 0
  Explains v d f =
      ((replace v d f).failure ≡ none
        → (a : A) × (t : T) × (v ≡ accept a t)
          × ((replace v d f).file ≡ some t)
          × ((replace v d f).out ≡ some a))
      × ((e : E) → v ≡ refuse e → (replace v d f).file ≡ f)

  replace-Explains : (v : Verdict E A T) (d : Disk) (f : Option T) → Explains v d f
  replace-Explains (refuse e) d f = (λ h. absurd (cc), λ e q. refl)
  replace-Explains (accept a t) blocked f = (λ h. absurd (cc), λ e q. refl)
  replace-Explains (accept a t) lost f = (λ h. absurd (cc), λ e q. refl)
  replace-Explains (accept a t) unsynced f = (λ h. absurd (cc), λ e q. absurd (cc))
  replace-Explains (accept a t) healthy f = (λ h. (a, t, refl, refl, refl), λ e q. absurd (cc))

  explain :
      (z : T) (fn : T → Verdict E A T) (d : Disk) (f : Option T)
      → ((update z fn d f).failure ≡ none
          → (a : A) × (t : T) × (fn (current z f) ≡ accept a t)
            × ((update z fn d f).file ≡ some t)
            × ((update z fn d f).out ≡ some a))
        × ((e : E) → fn (current z f) ≡ refuse e → (update z fn d f).file ≡ f)
  unfolding update
  explain z fn blocked f = (λ h. absurd (cc), λ e q. refl)
  explain z fn lost f = replace-Explains (fn (current z f)) lost f
  explain z fn unsynced f = replace-Explains (fn (current z f)) unsynced f
  explain z fn healthy f = replace-Explains (fn (current z f)) healthy f

  -- A transaction that reports no error ran its callback to acceptance, stored exactly the accepted
  -- value and handed out what the callback did.
  pub update_committed :
      (z : T) (fn : T → Verdict E A T) (d : Disk) (f : Option T)
      → (update z fn d f).failure ≡ none
      → (a : A) × (t : T) × (fn (current z f) ≡ accept a t)
        × ((update z fn d f).file ≡ some t)
        × ((update z fn d f).out ≡ some a)
  update_committed z fn d f h = (explain z fn d f).0 h

  -- A transaction whose callback refuses leaves the file as it was, whatever the disk does, and
  -- reports an error.
  pub update_refused :
      (z : T) (fn : T → Verdict E A T) (d : Disk) (f : Option T) {e : E}
      → fn (current z f) ≡ refuse e
      → ((update z fn d f).file ≡ f) × ((update z fn d f).failure ≢ none)
  update_refused z fn d f {e = e} h = (
    (explain z fn d f).1 e h,
    λ q. let (a, t, accepted, stored, out) = (explain z fn d f).0 q in cc,
  )

  -- The same for a property that turns into another.
  pub update-carries :
      (z : T) (P Q : T → Type 0) (fn : T → Verdict E A T) (d : Disk) (f : Option T)
      → ((t : T) → P t → Q t)
      → ((t : T) → P t → Keeps Q (fn t))
      → FileHas z P f
      → FileHas z Q (update z fn d f).file
  unfolding update
  update-carries z P Q fn blocked f weaken keep h = weaken _ h
  update-carries z P Q fn lost f weaken keep h =
      replace-FileHas z Q (fn (current z f)) lost f (keep _ h) (weaken _ h)
  update-carries z P Q fn unsynced f weaken keep h =
      replace-FileHas z Q (fn (current z f)) unsynced f (keep _ h) (weaken _ h)
  update-carries z P Q fn healthy f weaken keep h =
      replace-FileHas z Q (fn (current z f)) healthy f (keep _ h) (weaken _ h)

  -- After a transaction that reports no error, what the callback establishes holds of the file.
  pub update-establishes :
      (z : T) (Q : T → Type 0) (fn : T → Verdict E A T) (d : Disk) (f : Option T)
      → Keeps Q (fn (current z f))
      → (update z fn d f).failure ≡ none
      → FileHas z Q (update z fn d f).file
  update-establishes z Q fn d f keep h =
      let (a, t, accepted, stored, out) = update_committed z fn d f h in
      rw stored (subst (Keeps Q) accepted keep)

  pub Keeps-weaken :
      (P Q : T → Type 0) (v : Verdict E A T) → ((t : T) → P t → Q t) → Keeps P v → Keeps Q v
  Keeps-weaken P Q (refuse e) h k = tt
  Keeps-weaken P Q (accept a t) h k = h t k

  pub Keeps-intro :
      (P : T → Type 0) (v : Verdict E A T) → ((a : A) (t : T) → v ≡ accept a t → P t) → Keeps P v
  Keeps-intro P (refuse e) h = tt
  Keeps-intro P (accept a t) h = h a t refl

-- What a read gives is the file's value.
pub read_lem :
    {T : Type 0} (z : T) (d : Disk) (f : Option T) (t : T) → read z d f ≡ some t → t ≡ current z f
unfolding read
read_lem z blocked f t h = absurd (cc)
read_lem z lost f t h = sym (some_inj h)
read_lem z unsynced f t h = sym (some_inj h)
read_lem z healthy f t h = sym (some_inj h)
