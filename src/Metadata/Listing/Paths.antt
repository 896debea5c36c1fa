-- ===== src/Metadata/Listing/Paths.antt =====
-- The paths of a listing.
use text.Mathlib.TextLemmas.{
  nil-append, cons-append, append-nil, append_assoc, cons≢nil, append-ne-nil_of_right_ne-nil,
}
use fstorex.Base.{
  String, ◌<>◌, ◌≡◌, ◌≢◌, refl, sym, ◌∙◌, true, List, [], ◌∷◌, ◌++◌, arith, string_eq, ==_ne,
}
use fstorex.Base.Text.{has_prefix, split}
use fstorex.DataNode.Paths.{clean_step, clean_parts, clean_rooted, rooted}
use fstorex.Metadata.Paths.{slash}
use fstorex.Metadata.Paths.Split.{IsName, split-join, split-name}
use fstorex.Metadata.Listing.{join_clean}

clean_parts-append :
    (stack ps qs : List String)
    → clean_parts stack (ps ++ qs) ≡ clean_parts (clean_parts stack ps) qs
unfolding clean_parts
clean_parts-append stack [] qs = refl
clean_parts-append stack (p ∷ ps) qs = clean_parts-append (clean_step stack p) ps qs

rooted-append :
    (ps : List String) (name : String) → rooted (ps ++ name ∷ []) ≡ rooted ps <> "/" <> name
unfolding rooted
rooted-append [] name = rw (append-nil name, nil-append) refl
rooted-append (p ∷ ps) name = rw (rooted-append ps name) (
    rw (append_assoc "/" (p <> rooted ps) ("/" <> name), append_assoc p (rooted ps) ("/" <> name))
      refl)

clean_step-name :
    (stack : List String) (name : String)
    → name ≢ ""
    → name ≢ "."
    → name ≢ ".."
    → clean_step stack name ≡ stack ++ name ∷ []
unfolding clean_step
clean_step-name stack name some_rune one two = ground (arith, some_rune, one, two)

under-ne-nil : (name : String) → "/" <> name ≢ ""
under-ne-nil name same = cons≢nil (sym (cons-append _ "" name) ∙ same)

joined-ne-nil : (s name : String) → s <> "/" <> name ≢ ""
joined-ne-nil s name = append-ne-nil_of_right_ne-nil s (under-ne-nil name)

-- A name that `filepath.Clean` keeps is joined to the clean path.
pub join_clean-name :
    (path name : String)
    → has_prefix path "/" ≡ true
    → IsName name
    → name ≢ "."
    → name ≢ ".."
    → join_clean path name ≡ clean_rooted path <> "/" <> name
unfolding join_clean
join_clean-name path name from_root valid one two =
    let cleaned : clean_rooted (path <> "/" <> name) ≡ clean_rooted path <> "/" <> name =
      unfold clean_rooted in
      rw
        (
          split-join path name,
          split-name name valid.no_slash,
          clean_parts-append [] (split slash path) (name ∷ []),
        )
        (unfold clean_parts in
          rw (clean_step-name (clean_parts [] (split slash path)) name valid.not_empty one two)
            (rooted-append (clean_parts [] (split slash path)) name)) in
    rw
      (
        from_root,
        cleaned,
        ==_ne (clean_rooted path <> "/" <> name) "" (joined-ne-nil (clean_rooted path) name),
      )
      refl
