-- ===== src/Util/Paths.antt =====
-- `safe_relative` of util.py: which texts name a file below the workspace.
use open_tapeout.Prelude.{
  ℕ, String, Bool, true, false, ◌&&◌, not, List, [], ◌∷◌, ◌++◌, ◌==◌, all, any, is_empty,
  if◌then◌else◌, ◌≡◌, refl, arith, ap, Bool-cases, inl, inr, sym, ◌∙◌, and-eq-true, append-nil,
  append_assoc,
}
use open_tapeout.Result.{Result, ok, ensure, ◌>>◌, ensure-eq-ok, ok-injective}
use open_tapeout.Util.{codes}

-- `value.split("/")`
unfoldable pub split : List ℕ → List (List ℕ)
split [] = [] ∷ []
split (c ∷ cs) = elim (split cs) [
  | [] ↦ (c ∷ []) ∷ []
  | part ∷ parts ↦ if c == b'/' then [] ∷ part ∷ parts else (c ∷ part) ∷ parts
]

-- `"/".join(parts)`
unfoldable pub join : List (List ℕ) → List ℕ
join [] = []
join (part ∷ []) = part
join (part ∷ next ∷ parts) = part ++ (b'/' ∷ join (next ∷ parts))

-- `x not in ("", ".", "..")`
unfoldable pub is_plain : List ℕ → Bool
is_plain [] = false
is_plain (a ∷ []) = not (a == b'.')
is_plain (a ∷ b ∷ []) = not (a == b'.' && b == b'.')
is_plain (a ∷ b ∷ c ∷ cs) = true

abbrev pub mem : ℕ → List ℕ → Bool
mem c = any (λ d. d == c)

-- `PurePosixPath(value).is_absolute()`
starts_with_slash : List ℕ → Bool
starts_with_slash [] = false
starts_with_slash (c ∷ cs) = c == b'/'

unfoldable pub is_safe : List ℕ → Bool
unfolding split is_plain starts_with_slash
is_safe value =
    not (is_empty value)
    && not (mem 92 value)
    && not (mem 0 value)
    && not (starts_with_slash value)
    && all is_plain (split value)
    && not (mem b':' value)

-- The path of a value whose every part is plain is the value itself, so that is returned.
unfoldable pub safe_relative : String → Result String
unfolding is_safe
safe_relative value = do ensure (is_safe (codes value)) "Unsafe relative path"; ok value

join_step :
    (c : ℕ) (part : List ℕ) (parts : List (List ℕ))
    → join (if c == b'/' then [] ∷ part ∷ parts else (c ∷ part) ∷ parts) ≡ c ∷ join (part ∷ parts)
unfolding join
join_step c part [] = ground arith
join_step c part (p ∷ parts) = ground arith

split-cons : (cs : List ℕ) → (part : List ℕ) × (parts : List (List ℕ)) × (split cs ≡ part ∷ parts)
unfolding split
split-cons [] = ([], [], refl)
split-cons (c ∷ cs) =
    let (part, parts, e) = split-cons cs in
    elim (Bool-cases (c == b'/')) [
      | inl slash ↦ ([], part ∷ parts, ground arith)
      | inr other ↦ (c ∷ part, parts, ground arith)
    ]

-- Splitting a text at its slashes loses nothing.
pub join-split : (cs : List ℕ) → join (split cs) ≡ cs
unfolding split
join-split [] = unfold join in refl
join-split (c ∷ cs) =
    let (part, parts, e) = split-cons cs in
    rw (e, split) (join_step c part parts ∙ ap (◌∷◌ c) (rw e at (join-split cs)))

-- Where a path leads from the directories `at`, the innermost last: POSIX path resolution.
pub parent : List (List ℕ) → List (List ℕ)
parent [] = []
parent (d ∷ []) = []
parent (d ∷ e ∷ ds) = d ∷ parent (e ∷ ds)

step_into : List (List ℕ) → List ℕ → List (List ℕ)
unfolding parent
step_into at [] = at
step_into at (a ∷ []) = if a == b'.' then at else at ++ (a ∷ []) ∷ []
step_into at (a ∷ b ∷ []) = if a == b'.' && b == b'.' then parent at else at ++ (a ∷ b ∷ []) ∷ []
step_into at (a ∷ b ∷ c ∷ cs) = at ++ (a ∷ b ∷ c ∷ cs) ∷ []

unfoldable pub walk : List (List ℕ) → List (List ℕ) → List (List ℕ)
unfolding step_into
walk at [] = at
walk at (part ∷ parts) = walk (step_into at part) parts

step_into-plain :
    (at : List (List ℕ)) (part : List ℕ)
    → is_plain part ≡ true
    → step_into at part ≡ at ++ part ∷ []
unfolding step_into is_plain
step_into-plain at [] h = cc
step_into-plain at (a ∷ []) h = ground arith
step_into-plain at (a ∷ b ∷ []) h = ground arith
step_into-plain at (a ∷ b ∷ c ∷ cs) h = refl

walk-plain : (at parts : List (List ℕ)) → all is_plain parts ≡ true → walk at parts ≡ at ++ parts
unfolding walk
walk-plain at [] h = sym (append-nil at)
walk-plain at (part ∷ parts) h =
    let (first, others) = and-eq-true (is_plain part) _ h in
    rw (step_into-plain at part first, walk-plain (at ++ part ∷ []) parts others)
      (append_assoc at (part ∷ []) parts)

is_safe-plain : (cs : List ℕ) → is_safe cs ≡ true → all is_plain (split cs) ≡ true
unfolding is_safe
is_safe-plain cs h = ground arith

-- A path that `safe_relative` accepts is returned as it is, and from any directory it leads below
-- that directory, to the place that its own parts spell: it cannot leave the workspace.
pub safe_relative-contained :
    (value path : String) (root : List (List ℕ))
    → safe_relative value ≡ ok path
    → (path ≡ value)
      × (walk root (split (codes path)) ≡ root ++ split (codes path))
      × (join (split (codes path)) ≡ codes value)
unfolding safe_relative
safe_relative-contained value path root h =
    let (safe, same) = ensure-eq-ok (is_safe (codes value)) _ _ h in
    let e = sym (ok-injective same) in
    rw e (
      refl,
      walk-plain root (split (codes value)) (is_safe-plain (codes value) safe),
      join-split (codes value),
    )
