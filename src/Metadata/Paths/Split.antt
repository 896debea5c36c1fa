-- ===== src/Metadata/Paths/Split.antt =====
-- Laws of `splitPath`: its parts are names, trimming is redundant, and it undoes joining.
use Prim.Native.Char.{Char, code}
use text.Mathlib.TextLemmas.{nil-append, cons-append}
use fstorex.Base.{
  String, ◌<>◌, ◌≡◌, ◌≢◌, refl, ◌∙◌, ap, true, List, [], ◌∷◌, ◌++◌, arith, All, ◌==◌, string_eq,
  nat_eq, if_both, ◌⊎◌, inl, inr, Bool-cases, sym, ==_iff, ==_ne,
}
use mathlib.Core.List.{append-nil}
use fstorex.Base.Text.{trim_prefix, trim_suffix, split, onto_first}
use fstorex.Metadata.Paths.{slash, non_empty, split_path, join_path}

-- No rune of the text is '/'.
abbrev pub HasNoSlash : String → Type 0
HasNoSlash String.[] = Unit
HasNoSlash (String.◌∷◌ c s) = (code c ≢ slash) × HasNoSlash s

-- A file or directory name: not empty, and without '/'.
pub record IsName (s : String) : Type 0 where
  pub not_empty : s ≢ ""
  pub no_slash : HasNoSlash s

onto_first-HasNoSlash :
    (c : Char) (ws : List String)
    → code c ≢ slash
    → All HasNoSlash ws
    → All HasNoSlash (onto_first c ws)
onto_first-HasNoSlash c [] h hs = ((h, tt), tt)
onto_first-HasNoSlash c (w ∷ ws) h hs = ((h, hs.0), hs.1)

split-HasNoSlash : (s : String) → All HasNoSlash (split slash s)
unfolding split
split-HasNoSlash String.[] = (tt, tt)
split-HasNoSlash (String.◌∷◌ c s) =
    if_both (All HasNoSlash) (code c == slash) (λ e. (tt, split-HasNoSlash s))
      (λ e. onto_first-HasNoSlash c (split slash s) (ground arith) (split-HasNoSlash s))

non_empty-IsName : (ps : List String) → All HasNoSlash ps → All IsName (non_empty ps)
unfolding non_empty
non_empty-IsName [] h = tt
non_empty-IsName (p ∷ ps) h =
    if_both (All IsName) (p == "") (λ e. non_empty-IsName ps h.1)
      (λ e. (record { not_empty = ground arith; no_slash = h.0 }, non_empty-IsName ps h.1))

-- Every part of a path is a name.
pub split_path-IsName : (path : String) → All IsName (split_path path)
unfolding split_path
split_path-IsName path =
    let inner = trim_suffix (trim_prefix path "/") "/" in
    if_both (All IsName) (inner == "") (λ e. tt)
      (λ e. non_empty-IsName (split slash inner) (split-HasNoSlash inner))

-- The parts, with no regard to slashes at the ends.
abbrev pub words : String → List String
words s = non_empty (split slash s)

words-slash : (c : Char) (s : String) → code c ≡ slash → words (String.◌∷◌ c s) ≡ words s
unfolding split non_empty
words-slash c s h = ground arith

words-trim_prefix : (s : String) → words (trim_prefix s "/") ≡ words s
unfolding trim_prefix
words-trim_prefix String.[] = refl
words-trim_prefix (String.◌∷◌ c s) = elim (Bool-cases (code c == slash)) [
  | inl e ↦ rw e (sym (words-slash c s (ground arith)))
  | inr e ↦ rw e
]

split-ne-nil : (s : String) → split slash s ≢ []
unfolding split
split-ne-nil String.[] = ground arith
split-ne-nil (String.◌∷◌ c s) = ground (arith, split-ne-nil s)

onto_first-append :
    (c : Char) (ws vs : List String) → ws ≢ [] → onto_first c (ws ++ vs) ≡ onto_first c ws ++ vs
onto_first-append c [] vs h = absurd (h refl)
onto_first-append c (w ∷ ws) vs h = refl

split-cons_end :
    (c : Char) (s t : String)
    → split slash s ≡ split slash t ++ "" ∷ []
    → split slash (String.◌∷◌ c s) ≡ split slash (String.◌∷◌ c t) ++ "" ∷ []
unfolding split
split-cons_end c s t h =
    rw h (ground (arith, onto_first-append c (split slash t) ("" ∷ []) (split-ne-nil t)))

split-cons_same :
    (c : Char) (s t : String)
    → split slash s ≡ split slash t
    → split slash (String.◌∷◌ c s) ≡ split slash (String.◌∷◌ c t)
unfolding split
split-cons_same c s t h = rw h

-- `t` splits as `s` does, but perhaps for an empty piece at the end of `s`.
abbrev SplitsAlike : String → String → Type 0
SplitsAlike s t = (split slash s ≡ split slash t) ⊎ (split slash s ≡ split slash t ++ "" ∷ [])

split-trim_suffix : (s : String) → SplitsAlike s (trim_suffix s "/")
unfolding trim_suffix
split-trim_suffix String.[] = inl refl
split-trim_suffix (String.◌∷◌ c s) =
    if_both (SplitsAlike (String.◌∷◌ c s)) (String.◌∷◌ c s == "/")
      (λ e. inr (rw ((==_iff (String.◌∷◌ c s) "/").0 e) (unfold split nat_eq in refl)))
      (λ _. elim (split-trim_suffix s) [
        | inl h ↦ inl (split-cons_same c s (trim_suffix s "/") h)
        | inr h ↦ inr (split-cons_end c s (trim_suffix s "/") h)
      ])

non_empty-append : (ps qs : List String) → non_empty (ps ++ qs) ≡ non_empty ps ++ non_empty qs
unfolding non_empty
non_empty-append [] qs = refl
non_empty-append (p ∷ ps) qs = ground (arith, non_empty-append ps qs)

non_empty-end : (ps : List String) → non_empty (ps ++ "" ∷ []) ≡ non_empty ps
non_empty-end ps =
    non_empty-append ps ("" ∷ []) ∙ (unfold non_empty string_eq in append-nil (non_empty ps))

words-trim_suffix : (s : String) → words (trim_suffix s "/") ≡ words s
words-trim_suffix s = elim (split-trim_suffix s) [
  | inl h ↦ rw h
  | inr h ↦ rw h (sym (non_empty-end (split slash (trim_suffix s "/"))))
]

empty_words : (s : String) → (s == "") ≡ true → [] ≡ words s
empty_words s e = rw ((==_iff s "").0 e) (unfold non_empty split string_eq in refl)

-- `splitPath` is the non-empty pieces between slashes: what it trims first makes no difference.
pub split_path-eq-words : (path : String) → split_path path ≡ words path
unfolding split_path
split_path-eq-words path = elim (Bool-cases (trim_suffix (trim_prefix path "/") "/" == "")) [
  | inl e ↦
      rw e (empty_words _ e ∙ words-trim_suffix (trim_prefix path "/") ∙ words-trim_prefix path)
  | inr e ↦ rw e (words-trim_suffix (trim_prefix path "/") ∙ words-trim_prefix path)
]

split_cons_plain :
    (c : Char) (s : String)
    → code c ≢ slash
    → split slash (String.◌∷◌ c s) ≡ onto_first c (split slash s)
unfolding split
split_cons_plain c s h = rw (==_ne (code c) slash h)

split_cons_slash :
    (c : Char) (s : String) → code c ≡ slash → split slash (String.◌∷◌ c s) ≡ "" ∷ split slash s
unfolding split
split_cons_slash c s h = ground arith

split-slash : (t : String) → split slash ("/" <> t) ≡ "" ∷ split slash t
split-slash t = rw (cons-append, nil-append) (split_cons_slash _ t refl)

pub split-join : (p t : String) → split slash (p <> "/" <> t) ≡ split slash p ++ split slash t
split-join String.[] t = rw nil-append (split-slash t ∙ (unfold split in refl))
split-join (String.◌∷◌ c p) t = elim (Bool-cases (code c == slash)) [
  | inl e ↦
      rw (cons-append, split_cons_slash c _ (ground arith), split_cons_slash c _ (ground arith))
        (ap (λ (ws : List String). "" ∷ ws) (split-join p t))
  | inr e ↦
      rw
        (
          cons-append,
          split_cons_plain c _ (ground arith),
          split_cons_plain c _ (ground arith),
          split-join p t,
        )
        (onto_first-append c (split slash p) (split slash t) (split-ne-nil p))
]

pub split-name : (s : String) → HasNoSlash s → split slash s ≡ s ∷ []
split-name String.[] h = unfold split in refl
split-name (String.◌∷◌ c s) h = rw (split_cons_plain c s h.0, split-name s h.1)

words-name : (s : String) → IsName s → words s ≡ s ∷ []
words-name s h = rw (split-name s h.no_slash) (unfold non_empty in rw (==_ne s "" h.not_empty))

words-join : (p name : String) → IsName name → words (p <> "/" <> name) ≡ words p ++ name ∷ []
words-join p name h = rw (split-join p name, non_empty-append, words-name name h)

words_root : words "/" ≡ []
unfolding non_empty split string_eq nat_eq
words_root = refl

words_under_root : (name : String) → IsName name → words ("/" <> name) ≡ name ∷ []
words_under_root name h = rw (cons-append, nil-append) (words-slash _ name refl ∙ words-name name h)

-- The path that `joinPath` makes from any parent path and a name splits into the parent's parts
-- and the name.
pub split_path-join_path :
    (parent name : String)
    → IsName name
    → split_path (join_path parent name) ≡ split_path parent ++ name ∷ []
unfolding join_path
split_path-join_path parent name h =
    rw (split_path-eq-words parent, split_path-eq-words)
      (if_both (λ s. words s ≡ words parent ++ name ∷ []) (parent == "/")
        (λ e. rw ((==_iff parent "/").0 e, words_root) (words_under_root name h))
        (λ _. words-join parent name h))
