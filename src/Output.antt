-- ===== src/Output.antt =====
-- internal/sandbox/output.go: `boundedOutput`, which keeps the beginning and the end of what a
-- process writes. Bytes are numbers, and `seen` is the bit pattern of its int64.
pub mod Bounded
mod Tests
use gopherharness.Base.{
  ℕ, ◌+◌, ◌-◌, ◌/◌, ◌%◌, ◌^◌, min, leb, ltb, Bool, ◌||◌, Option, none, some, List, [], ◌∷◌, ◌++◌,
  length, take, drop, last, if◌then◌else◌,
}

pub record BoundedOutput : Type 0 where
  pub limit : ℕ
  pub head : List ℕ
  pub tail : List ℕ
  pub seen : ℕ

abbrev pub new_bounded_output : ℕ → BoundedOutput
new_bounded_output limit = record { limit = limit; head = []; tail = []; seen = 0 }

abbrev pub half : BoundedOutput → ℕ
half b = b.limit / 2

-- What goes to the beginning, and what is left for the end.
abbrev pub room : BoundedOutput → List ℕ → ℕ
room b p = min (half b - length b.head) (length p)

unfoldable pub write_head : BoundedOutput → List ℕ → List ℕ
write_head b p = if ltb (length b.head) (half b) then b.head ++ take (room b p) p else b.head

unfoldable pub rest : BoundedOutput → List ℕ → List ℕ
rest b p = if ltb (length b.head) (half b) then drop (room b p) p else p

unfoldable pub write_tail : ℕ → List ℕ → List ℕ → List ℕ
write_tail tail_limit tail p =
    if leb tail_limit (length p)
    then drop (length p - tail_limit) p
    else (if ltb tail_limit (length tail + length p)
        then drop (length tail + length p - tail_limit) tail ++ p
        else tail ++ p)

-- `Write`: the output afterwards, and the number of bytes that it reports as written.
unfoldable pub write : List ℕ → BoundedOutput → BoundedOutput × ℕ
write p b = (
  record {
    limit = b.limit;
    head = write_head b p;
    tail = write_tail (b.limit - half b) b.tail (rest b p);
    seen = (b.seen + length p) % 2 ^ 64;
  },
  length p,
)

-- "\n[output truncated: middle omitted; exit status is unchanged]\n"
abbrev pub marker : List ℕ
marker =
    10 ∷ 91 ∷ 111 ∷ 117 ∷ 116 ∷ 112 ∷ 117 ∷ 116 ∷ 32 ∷ 116 ∷ 114 ∷ 117 ∷ 110 ∷ 99 ∷ 97 ∷ 116 ∷ 101
    ∷ 100 ∷ 58 ∷ 32 ∷ 109 ∷ 105 ∷ 100 ∷ 100 ∷ 108 ∷ 101 ∷ 32 ∷ 111 ∷ 109 ∷ 105 ∷ 116 ∷ 116 ∷ 101
    ∷ 100 ∷ 59 ∷ 32 ∷ 101 ∷ 120 ∷ 105 ∷ 116 ∷ 32 ∷ 115 ∷ 116 ∷ 97 ∷ 116 ∷ 117 ∷ 115 ∷ 32 ∷ 105 ∷ 115
    ∷ 32 ∷ 117 ∷ 110 ∷ 99 ∷ 104 ∷ 97 ∷ 110 ∷ 103 ∷ 101 ∷ 100 ∷ 93 ∷ 10 ∷ []

-- `b.seen <= int64(b.limit)`, where a pattern from 2 ^ 63 on is a negative number.
abbrev pub fits : BoundedOutput → Bool
fits b = leb b.seen b.limit || leb (2 ^ 63) b.seen

abbrev pub head_size : ℕ → ℕ
head_size limit = (limit - length marker) / 2

abbrev pub tail_size : ℕ → ℕ
tail_size limit = limit - length marker - head_size limit

abbrev pub truncated : BoundedOutput → List ℕ × ℕ
truncated b = (
  take (head_size b.limit) b.head ++ marker ++ drop (length b.tail - tail_size b.limit) b.tail,
  b.seen - (head_size b.limit + tail_size b.limit),
)

-- `snapshot`: the text and the number of bytes omitted, or none where an index is out of range.
unfoldable pub snapshot : BoundedOutput → Option (List ℕ × ℕ)
snapshot b =
    if fits b
    then some (b.head ++ b.tail, 0)
    else (if ltb b.limit (length marker)
          || ltb (length b.head) (head_size b.limit)
          || ltb (length b.tail) (tail_size b.limit)
        then none
        else some (truncated b))

-- Several calls of `Write`.
unfoldable pub write_all : List (List ℕ) → BoundedOutput → BoundedOutput
write_all [] b = b
write_all (p ∷ ps) b = write_all ps (write p b).0
