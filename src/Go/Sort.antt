-- ===== src/Go/Sort.antt =====
-- sort.Strings of Go: the order of strings, which for UTF-8 is that of their code points, and a
-- sorted list of texts.
use service_mesh_nats_go.Prelude.{
  String, Char, code, Bool, true, false, ◌≡◌, refl, sym, inl, inr, List, [], ◌∷◌, ltb, eqb,
  Bool-cases, if◌then◌else◌, arith,
}
use Prim.Native.Nat.{Ordering, compare}
use text.Mathlib.TextEquality.{codes_equal}

-- s <= t
unfoldable pub text_le : String → String → Bool
text_le String.[] t = true
text_le (String.◌∷◌ c s) String.[] = false
text_le (String.◌∷◌ c s) (String.◌∷◌ d t) =
    let rest = text_le s t in
    if ltb (code c) (code d) then true else if eqb (code c) (code d) then rest else false

unfoldable pub insert_text : String → List String → List String
insert_text a [] = a ∷ []
insert_text a (x ∷ xs) =
    let rest = insert_text a xs in if text_le a x then a ∷ (x ∷ xs) else x ∷ rest

unfoldable pub sort_texts : List String → List String
unfolding insert_text
sort_texts [] = []
sort_texts (x ∷ xs) = insert_text x (sort_texts xs)

text_le_total : (s t : String) → text_le s t ≡ false → text_le t s ≡ true
unfolding text_le
text_le_total String.[] t h = cc
text_le_total (String.◌∷◌ c s) String.[] h = refl
text_le_total (String.◌∷◌ c s) (String.◌∷◌ d t) h = ground (arith, text_le_total s t)

text_le_trans : (s t u : String) → text_le s t ≡ true → text_le t u ≡ true → text_le s u ≡ true
unfolding text_le
text_le_trans String.[] t u h k = refl
text_le_trans (String.◌∷◌ c s) String.[] u h k = cc
text_le_trans (String.◌∷◌ c s) (String.◌∷◌ d t) String.[] h k = cc
text_le_trans (String.◌∷◌ c s) (String.◌∷◌ d t) (String.◌∷◌ e u) h k =
    ground (arith, text_le_trans s t u)

same_char : (c d : Char) → eqb (code c) (code d) ≡ true → c ≡ d
same_char c d h = codes_equal c d (by_order (compare (code c) (code d)) h)
  where
    by_order : (o : Ordering) → (elim o [ Ordering.eq ↦ true | _ ↦ false ]) ≡ true → o ≡ Ordering.eq
    by_order Ordering.lt h = cc
    by_order Ordering.eq h = refl
    by_order Ordering.gt h = cc

text_le_antisymm : (s t : String) → text_le s t ≡ true → text_le t s ≡ true → s ≡ t
unfolding text_le
text_le_antisymm String.[] String.[] h k = refl
text_le_antisymm String.[] (String.◌∷◌ d t) h k = cc
text_le_antisymm (String.◌∷◌ c s) String.[] h k = cc
text_le_antisymm (String.◌∷◌ c s) (String.◌∷◌ d t) h k =
    let (e, f, g) = parts (text_le s t) (text_le t s) h k in
    λ i. String.◌∷◌ (same_char c d e i) (text_le_antisymm s t f g i)
  where
    parts :
        (a b : Bool)
        → (if ltb (code c) (code d) then true else if eqb (code c) (code d) then a else false)
          ≡ true
        → (if ltb (code d) (code c) then true else if eqb (code d) (code c) then b else false)
          ≡ true
        → (eqb (code c) (code d) ≡ true) × (a ≡ true) × (b ≡ true)
    parts a b h k = ground arith

-- Two texts may be put into a list in either order.
insert_text-in_order :
    (a b : String) (xs : List String)
    → text_le a b ≡ true
    → insert_text a (insert_text b xs) ≡ insert_text b (insert_text a xs)
unfolding insert_text
insert_text-in_order a b [] h = by_test (text_le b a) refl
  where
    by_test :
        (t : Bool)
        → text_le b a ≡ t
        → (if text_le a b then a ∷ (b ∷ []) else b ∷ (a ∷ []))
          ≡ (if t then b ∷ (a ∷ []) else a ∷ (b ∷ []))
    by_test true k = let e = text_le_antisymm a b h k in rw h (λ i. e i ∷ (sym e i ∷ []))
    by_test false k = rw h refl
insert_text-in_order a b (x ∷ xs) h = ground (
  arith,
  text_le_trans a b x,
  text_le_trans b a x,
  text_le_antisymm a b,
  insert_text-in_order a b xs h,
)

pub insert_text_comm :
    (a b : String) (xs : List String)
    → insert_text a (insert_text b xs) ≡ insert_text b (insert_text a xs)
insert_text_comm a b xs = elim (Bool-cases (text_le a b)) [
  | inl h ↦ insert_text-in_order a b xs h
  | inr h ↦ sym (insert_text-in_order b a xs (text_le_total a b h))
]
