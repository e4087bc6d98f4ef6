-- ===== src/Output/Bounded.antt =====
-- What internal/sandbox/output.go keeps, against the whole output.
use gopherharness.Base.{
  ℕ, ◌+◌, ◌-◌, ◌/◌, ◌%◌, ◌^◌, ◌≤◌, ◌<◌, min, leb, ltb, ◌||◌, true, false, some, List, [], ◌∷◌, ◌++◌,
  length, take, drop, last, if◌then◌else◌, ◌≡◌, refl, sym, ap, ◌∙◌, subst, arith, if_rule, if_true,
  if_false, some_inj, Bool-cases, inl, inr, append_nil, append_assoc, length-append, length-take,
  length-drop, take-drop, take_all, drop_all, take-append, drop-append, drop-drop, take-take,
  take_from, drop_from,
}
use gopherharness.Output.{
  BoundedOutput, new_bounded_output, half, write_head, rest, write_tail, write, marker, fits,
  head_size, tail_size, truncated, snapshot, write_all,
}

-- What is kept of the output `a`.
pub record Keeps (a : List ℕ) (b : BoundedOutput) : Type 0 where
  pub head : b.head ≡ take (half b) a
  pub tail : b.tail ≡ last (b.limit - half b) (drop (half b) a)
  pub seen : b.seen ≡ length a % 2 ^ 64

module _ {A : Type 0} where
  take-min : (n : ℕ) (xs : List A) → take (min n (length xs)) xs ≡ take n xs
  take-min n xs = elim (Bool-cases (leb n (length xs))) [
    | inl h ↦ take_from (min n (length xs)) n xs (ground arith)
    | inr h ↦ take_all (min n (length xs)) xs (ground arith) ∙ sym (take_all n xs (ground arith))
  ]

  drop-min : (n : ℕ) (xs : List A) → drop (min n (length xs)) xs ≡ drop n xs
  drop-min n xs = elim (Bool-cases (leb n (length xs))) [
    | inl h ↦ drop_from (min n (length xs)) n xs (ground arith)
    | inr h ↦ drop_all (min n (length xs)) xs (ground arith) ∙ sym (drop_all n xs (ground arith))
  ]

module _ (a p : List ℕ) (b : BoundedOutput) (k : Keeps a b) where
  head_length : length b.head ≡ min (half b) (length a)
  head_length = ap length k.head ∙ length-take (half b) a

  short : ltb (length b.head) (half b) ≡ true → length a < half b
  short t = ground (arith, t, head_length)

  long : ltb (length b.head) (half b) ≡ false → half b ≤ length a
  long f = ground (arith, f, head_length)

  head_kept : write_head b p ≡ take (half b) (a ++ p)
  unfolding write_head
  head_kept =
      if_rule (λ h. h ≡ take (half b) (a ++ p)) (ltb (length b.head) (half b))
        (λ t.
          let le = short t in
          ap (λ l. b.head ++ l)
            (take-min (half b - length b.head) p
              ∙ take_from (half b - length b.head) (half b - length a) p
                  (omega (arith, le, head_length)))
          ∙ ap (λ l. l ++ take (half b - length a) p) k.head
          ∙ sym (take-append (half b) a p))
        (λ f.
          let le = long f in
          k.head
          ∙ sym (append_nil (take (half b) a))
          ∙ ap (λ l. take (half b) a ++ l) (take_from 0 (half b - length a) p (omega (arith, le)))
          ∙ sym (take-append (half b) a p))

  rest_kept : drop (half b) a ++ rest b p ≡ drop (half b) (a ++ p)
  unfolding rest
  rest_kept =
      if_rule (λ r. drop (half b) a ++ r ≡ drop (half b) (a ++ p)) (ltb (length b.head) (half b))
        (λ t.
          let le = short t in
          ap (λ l. drop (half b) a ++ l)
            (drop-min (half b - length b.head) p
              ∙ drop_from (half b - length b.head) (half b - length a) p
                  (omega (arith, le, head_length)))
          ∙ sym (drop-append (half b) a p))
        (λ f.
          let le = long f in
          ap (λ l. drop (half b) a ++ l) (drop_from 0 (half b - length a) p (omega (arith, le)))
          ∙ sym (drop-append (half b) a p))

-- The end of `q` followed by `p`, from the end of `q`.
write_tail-last :
    (limit : ℕ) (q p : List ℕ) → write_tail limit (last limit q) p ≡ last limit (q ++ p)
unfolding write_tail
write_tail-last limit q p =
    if_rule (λ r. r ≡ last limit (q ++ p)) (leb limit (length p))
      (λ t. sym (
        both
        ∙ ap (λ l. l ++ drop (length (q ++ p) - limit - length q) p)
            (drop_all (length (q ++ p) - limit) q (ground (arith, t, sum)))
        ∙ drop_from (length (q ++ p) - limit - length q) (length p - limit) p
            (ground (arith, t, sum))))
      λ f.
        let less = keep f in
        if_rule (λ r. r ≡ last limit (q ++ p)) (ltb limit (length (last limit q) + length p))
          (λ t.
            ap (λ l. l ++ p)
              (drop-drop (length (last limit q) + length p - limit) (length q - limit) q
                ∙ drop_from (length q - limit + (length (last limit q) + length p - limit))
                    (length (q ++ p) - limit) q (ground (arith, t, sum, kept)))
            ∙ sym less)
          (λ g.
            ap (λ l. l ++ p)
              (drop_from (length q - limit) (length (q ++ p) - limit) q
                (ground (arith, f, g, sum, kept)))
            ∙ sym less)
  where
    sum : length (q ++ p) ≡ length q + length p
    sum = length-append q p

    kept : length (last limit q) ≡ length q - (length q - limit)
    kept = length-drop (length q - limit) q

    both :
        last limit (q ++ p)
        ≡ drop (length (q ++ p) - limit) q ++ drop (length (q ++ p) - limit - length q) p
    both = drop-append (length (q ++ p) - limit) q p

    keep :
        leb limit (length p) ≡ false → last limit (q ++ p) ≡ drop (length (q ++ p) - limit) q ++ p
    keep f =
        both
        ∙ ap (λ l. drop (length (q ++ p) - limit) q ++ l)
            (drop_from (length (q ++ p) - limit - length q) 0 p (ground (arith, f, sum)))

write-Keeps : (a p : List ℕ) (b : BoundedOutput) → Keeps a b → Keeps (a ++ p) (write p b).0
unfolding write
write-Keeps a p b k = record {
  head = head_kept a p b k;
  tail =
      ap (λ t. write_tail (b.limit - half b) t (rest b p)) k.tail
      ∙ write_tail-last (b.limit - half b) (drop (half b) a) (rest b p)
      ∙ ap (last (b.limit - half b)) (rest_kept a p b k);
  seen = omega (arith, k.seen, length-append a p);
}

-- All that was written.
unfoldable pub all_bytes : List (List ℕ) → List ℕ
all_bytes [] = []
all_bytes (p ∷ ps) = p ++ all_bytes ps

abbrev pub Kept : List ℕ → ℕ → BoundedOutput → Type 0
Kept a limit b = Keeps a b × (b.limit ≡ limit)

write_all-Kept :
    (ps : List (List ℕ)) (a : List ℕ) (b : BoundedOutput)
    → Keeps a b
    → Kept (a ++ all_bytes ps) b.limit (write_all ps b)
unfolding write_all all_bytes write
write_all-Kept [] a b k = (subst (λ l. Keeps l b) (sym (append_nil a)) k, refl)
write_all-Kept (p ∷ ps) a b k =
    let (k', same) = write_all-Kept ps (a ++ p) (write p b).0 (write-Keeps a p b k) in
    (subst (λ l. Keeps l (write_all ps (write p b).0)) (append_assoc a p (all_bytes ps)) k', same)

abbrev pub around : ℕ → List ℕ → List ℕ × ℕ
around limit a = (
  take (head_size limit) a ++ marker ++ last (tail_size limit) a,
  length a - (head_size limit + tail_size limit),
)

-- What a snapshot should show of the whole output: all of it, or its beginning and its end around the
-- marker, and how many bytes are left out.
unfoldable pub excerpt : ℕ → List ℕ → List ℕ × ℕ
excerpt limit a = if leb (length a) limit then (a, 0) else around limit a

module _ (a : List ℕ) (b : BoundedOutput) (k : Keeps a b) (room : length marker ≤ b.limit)
    (few : length a < 2 ^ 63) where
  seen_all : b.seen ≡ length a
  seen_all = omega (arith, k.seen, few)

  tail_length : b.limit < length a → length b.tail ≡ b.limit - half b
  tail_length h =
      ap length k.tail
      ∙ length-drop (length (drop (half b) a) - (b.limit - half b)) (drop (half b) a)
      ∙ omega (arith, h, length-drop (half b) a)

  whole : length a ≤ b.limit → b.head ++ b.tail ≡ a
  whole h =
      ap (λ l. l ++ b.tail) k.head
      ∙ ap (λ l. take (half b) a ++ l)
          (k.tail
            ∙ drop_from (length (drop (half b) a) - (b.limit - half b)) 0 (drop (half b) a)
                (omega (arith, h, length-drop (half b) a)))
      ∙ take-drop (half b) a

  start : b.limit < length a → take (head_size b.limit) b.head ≡ take (head_size b.limit) a
  start h =
      ap (take (head_size b.limit)) k.head ∙ take-take (head_size b.limit) (half b) a (omega arith)

  end :
      b.limit < length a
      → drop (length b.tail - tail_size b.limit) b.tail ≡ last (tail_size b.limit) a
  end h =
      let long = tail_length h in
      let l = length (drop (half b) a) - (b.limit - half b) in
      ap (drop (length b.tail - tail_size b.limit)) k.tail
      ∙ drop-drop (length b.tail - tail_size b.limit) l (drop (half b) a)
      ∙ drop-drop (l + (length b.tail - tail_size b.limit)) (half b) a
      ∙ drop_from (half b + (l + (length b.tail - tail_size b.limit)))
          (length a - tail_size b.limit) a (omega (arith, h, long, room, length-drop (half b) a))

  snapshot-Keeps : snapshot b ≡ some (excerpt b.limit a)
  unfolding snapshot excerpt
  snapshot-Keeps =
      if_rule (λ r. r ≡ some (excerpt b.limit a)) (fits b)
        (λ t.
          let le : length a ≤ b.limit = ground (arith, t, seen_all, few) in
          let small : leb (length a) b.limit ≡ true = ground arith in
          ap some
            (ap (λ l. (l, 0)) (whole le) ∙ sym (if_true (leb (length a) b.limit) (a, 0) _ small)))
        (λ f.
          let gt : b.limit < length a = ground (arith, f, seen_all, few) in
          let large : leb (length a) b.limit ≡ false = ground arith in
          if_rule (λ r. r ≡ some (excerpt b.limit a))
            (ltb b.limit (length marker)
              || ltb (length b.head) (head_size b.limit)
              || ltb (length b.tail) (tail_size b.limit))
            (λ t. absurd (ground (arith, t, gt, room, head_length a [] b k, tail_length gt)))
            (λ g. ap some (cut gt ∙ sym (if_false (leb (length a) b.limit) (a, 0) _ large))))
    where
      cut : (gt : b.limit < length a) → truncated b ≡ around b.limit a
      cut gt = rw (start gt, end gt, seen_all) refl

abbrev no_bytes : List ℕ
no_bytes = []

-- Of an output below 2 ^ 63 bytes, in whatever pieces it is written, a snapshot shows exactly what
-- the whole output would show: all of it, or its beginning and its end around the marker, if the limit
-- has room for the marker; and no index of the snapshot is out of range.
pub snapshot-excerpt :
    (limit : ℕ) (ps : List (List ℕ))
    → length marker ≤ limit
    → length (all_bytes ps) < 2 ^ 63
    → snapshot (write_all ps (new_bounded_output limit)) ≡ some (excerpt limit (all_bytes ps))
snapshot-excerpt limit ps has_room few =
    let (k, same) = write_all-Kept ps [] (new_bounded_output limit) (record {
      head = sym (take_all (limit / 2) [] (omega arith));
      tail = sym (
          drop_all (length (drop (limit / 2) no_bytes) - (limit - limit / 2))
            (drop (limit / 2) no_bytes) (omega (arith, length-drop (limit / 2) no_bytes)));
      seen = omega arith;
    }) in
    let b = write_all ps (new_bounded_output limit) in
    snapshot-Keeps (all_bytes ps) b k (rw same has_room) few
    ∙ ap (λ n. some (excerpt n (all_bytes ps))) same

excerpt-length :
    (limit : ℕ) (a : List ℕ) → length marker ≤ limit → length (excerpt limit a).0 ≤ limit
unfolding excerpt
excerpt-length limit a fits_marker =
    let h = head_size limit in
    let e = last (tail_size limit) a in
    if_rule (λ (r : List ℕ × ℕ). length r.0 ≤ limit) (leb (length a) limit) (λ t. ground arith)
      λ f.
        let le : length (take h a ++ marker ++ e) ≤ limit = omega (
          arith,
          fits_marker,
          length-append (take h a ++ marker) e,
          length-append (take h a) marker,
          length-take h a,
          length-drop (length a - tail_size limit) a,
        ) in
        le

-- Nor does a snapshot ever show more bytes than the limit.
pub snapshot_within :
    (limit : ℕ) (ps : List (List ℕ)) {shown : List ℕ × ℕ}
    → length marker ≤ limit
    → length (all_bytes ps) < 2 ^ 63
    → snapshot (write_all ps (new_bounded_output limit)) ≡ some shown
    → length shown.0 ≤ limit
snapshot_within limit ps has_room few h =
    subst (λ r. length r.0 ≤ limit) (some_inj (sym (snapshot-excerpt limit ps has_room few) ∙ h))
      (excerpt-length limit (all_bytes ps) has_room)
