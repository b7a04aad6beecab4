-- ===== src/Target/Subject.antt =====
-- What a subject says of its target: which targets have one, and that it determines the segments.
use service_mesh_nats_go.Prelude.{
  ℕ, suc, ◌+◌, String, code, Bool, true, false, ◌≡◌, ◌≢◌, ◌↔◌, ◌∙◌, refl, sym, ap, List, [], ◌∷◌,
  ◌++◌, none, some, inl, inr, ◌⊎◌, arith, All, length, Option-cases,
}
use service_mesh_nats_go.Go.Platform.{Platform}
use service_mesh_nats_go.Go.Text.{append, is_blank, is_space, is_print, join, split, extend}
use service_mesh_nats_go.Mesh.{Target}
use service_mesh_nats_go.Errors.{
  SegmentFault, no_segments, bad_segment, Error, wrapped, invalid_target, ok, err,
}
use service_mesh_nats_go.Target.{check_characters, check_segment, check_segments, assemble, subject}

-- Every character of a text satisfies a predicate of its code point.
abbrev pub Characters : (ℕ → Type 0) → String → Type 0
Characters P String.[] = Unit
Characters P (String.◌∷◌ c s) = P (code c) × Characters P s

-- A character that may stand in a segment.
pub record IsLegal (wide : ℕ → Bool) (c : ℕ) : Type 0 where
  pub not_dot : c ≢ b'.'
  pub not_star : c ≢ b'*'
  pub not_angle : c ≢ b'>'
  pub not_space : is_space c ≡ false
  pub printable : is_print wide c ≡ true

abbrev pub IsSegment : (ℕ → Bool) → String → Type 0
IsSegment wide seg = (is_blank seg ≡ false) × Characters (IsLegal wide) seg

module _ (wide : ℕ → Bool) where
  check_characters-none :
      (s : String) → check_characters wide s ≡ none → Characters (IsLegal wide) s
  unfolding check_characters
  check_characters-none String.[] h = tt
  check_characters-none (String.◌∷◌ c s) h = ground (arith, check_characters-none s)

  check_characters-legal :
      (s : String) → Characters (IsLegal wide) s → check_characters wide s ≡ none
  unfolding check_characters
  check_characters-legal String.[] h = refl
  check_characters-legal (String.◌∷◌ c s) h = ground (arith, check_characters-legal s h.1)

  pub check_segment-none : (s : String) → (check_segment wide s ≡ none) ↔ IsSegment wide s
  unfolding check_segment
  check_segment-none s =
      (λ h. ground (arith, check_characters-none s), λ h. ground (arith, check_characters-legal s))

  check_segments-none :
      (i : ℕ) (segs : List String) → (check_segments wide i segs ≡ none) ↔ All (IsSegment wide) segs
  unfolding check_segments
  check_segments-none i [] = (λ h. tt, λ h. refl)
  check_segments-none i (seg ∷ segs) =
      let rest = check_segments-none (suc i) segs in
      let first = check_segment-none seg in
      (λ h. ground (arith, rest.0, first.0), λ h. ground (arith, rest.1 h.1, first.1 h.0))

  assemble-ok :
      (segs : List String) (s : String)
      → assemble wide segs ≡ ok s
      → (segs ≢ []) × All (IsSegment wide) segs × (s ≡ join "." segs)
  unfolding assemble
  assemble-ok [] s h = cc
  assemble-ok (seg ∷ segs) s h =
      (λ e. cc, (check_segments-none 0 (seg ∷ segs)).0 (ground arith), ground arith)

  assemble-of :
      (segs : List String)
      → segs ≢ []
      → All (IsSegment wide) segs
      → assemble wide segs ≡ ok (join "." segs)
  unfolding assemble
  assemble-of [] n h = absurd (n refl)
  assemble-of (seg ∷ segs) n h = rw ((check_segments-none 0 (seg ∷ segs)).1 h)

-- A target has a subject exactly when it has segments and each is a legal name; the subject then is
-- the segments joined by dots.
pub subject-ok_iff :
    (go : Platform) (t : Target) (s : String)
    → (subject go t ≡ ok s)
      ↔ ((t.segments ≢ []) × All (IsSegment go.wide_print) t.segments × (s ≡ join "." t.segments))
unfolding subject
subject-ok_iff go t s = (
  assemble-ok go.wide_print t.segments s,
  λ h. assemble-of go.wide_print t.segments h.0 h.1 ∙ ap ok (sym h.2),
)

-- A text without dots is one part.
split-legal : (wide : ℕ → Bool) (s : String) → Characters (IsLegal wide) s → split b'.' s ≡ s ∷ []
unfolding split extend
split-legal wide String.[] h = refl
split-legal wide (String.◌∷◌ c s) h = ground (arith, split-legal wide s h.1)

split-append :
    (wide : ℕ → Bool) (p s : String)
    → Characters (IsLegal wide) p
    → split b'.' (append p (append "." s)) ≡ p ∷ split b'.' s
unfolding split extend append
split-append wide String.[] s h = refl
split-append wide (String.◌∷◌ c p) s h = ground (arith, split-append wide p s h.1)

split-join :
    (wide : ℕ → Bool) (segs : List String)
    → segs ≢ []
    → All (IsSegment wide) segs
    → split b'.' (join "." segs) ≡ segs
unfolding join
split-join wide [] n h = absurd (n refl)
split-join wide (p ∷ []) n h = split-legal wide p h.0.1
split-join wide (p ∷ q ∷ ps) n h =
    split-append wide p (join "." (q ∷ ps)) h.0.1
    ∙ ap (◌∷◌ p) (split-join wide (q ∷ ps) (λ e. cc) h.1)

-- The segments of a target can be read back from its subject, by splitting it at the dots.
pub split-subject :
    (go : Platform) (t : Target) (s : String) → subject go t ≡ ok s → split b'.' s ≡ t.segments
split-subject go t s h =
    let (n, legal, e) = (subject-ok_iff go t s).0 h in
    ap (split b'.') e ∙ split-join go.wide_print t.segments n legal

-- Two targets with one subject have the same segments.
pub subject-injective :
    (go : Platform) (t u : Target) (s : String)
    → subject go t ≡ ok s
    → subject go u ≡ ok s
    → t.segments ≡ u.segments
subject-injective go t u s ht hu = sym (split-subject go t s ht) ∙ split-subject go u s hu

-- What a refusal of a list of segments names.
pub record FirstFault (wide : ℕ → Bool) (segs : List String) (i : ℕ) (e : Error) : Type 0 where
  pub before : List String
  pub bad : String
  pub after : List String
  pub fault : SegmentFault
  pub split_at : segs ≡ before ++ (bad ∷ after)
  pub legal : All (IsSegment wide) before
  pub refused : check_segment wide bad ≡ some fault
  pub named : e ≡ wrapped invalid_target (bad_segment (i + length before) bad fault)

module _ (wide : ℕ → Bool) where
  FirstFault-cons :
      (seg : String) (segs : List String) (i : ℕ) (e : Error)
      → check_segment wide seg ≡ none
      → FirstFault wide segs (suc i) e
      → FirstFault wide (seg ∷ segs) i e
  FirstFault-cons seg segs i e ok_seg f = record {
    before = seg ∷ f.before;
    bad = f.bad;
    after = f.after;
    fault = f.fault;
    split_at = ap (◌∷◌ seg) f.split_at;
    legal = ((check_segment-none wide seg).0 ok_seg, f.legal);
    refused = f.refused;
    named = f.named ∙ ap (λ n. wrapped invalid_target (bad_segment n f.bad f.fault)) (omega arith);
  }

  check_segments-fault :
      (i : ℕ) (segs : List String) (e : Error)
      → check_segments wide i segs ≡ some e
      → FirstFault wide segs i e
  unfolding check_segments
  check_segments-fault i [] e h = cc
  check_segments-fault i (seg ∷ segs) e h = elim (Option-cases (check_segment wide seg)) [
    | inl fine ↦
        FirstFault-cons seg segs i e fine (check_segments-fault (suc i) segs e (ground arith))
    | inr (fault, bad) ↦ record {
      before = [];
      bad = seg;
      after = segs;
      fault = fault;
      split_at = refl;
      legal = tt;
      refused = bad;
      named = ground arith;
    }
  ]

  assemble-err :
      (segs : List String) (e : Error)
      → assemble wide segs ≡ err e
      → ((segs ≡ []) × (e ≡ wrapped invalid_target no_segments)) ⊎ FirstFault wide segs 0 e
  unfolding assemble
  assemble-err [] e h = inl (refl, cc)
  assemble-err (seg ∷ segs) e h = inr (check_segments-fault 0 (seg ∷ segs) e (ground arith))

-- A target that is refused has no segments, or the error names its first segment that is not a
-- legal name, with its position and what is wrong with it.
pub subject-err :
    (go : Platform) (t : Target) (e : Error)
    → subject go t ≡ err e
    → ((t.segments ≡ []) × (e ≡ wrapped invalid_target no_segments))
      ⊎ FirstFault go.wide_print t.segments 0 e
unfolding subject
subject-err go t e h = assemble-err go.wide_print t.segments e h
