-- ===== src/DataNode/Heartbeat.antt =====
-- How a data node reads the leader's address out of the error of a heartbeat
-- (internal/datanode/datanode.go).
use Prim.Native.Char.{Char, code}
use fstorex.Base.{
  String, ◌<>◌, ◌≡◌, ◌≢◌, refl, ap, subst, Bool, ◌&&◌, ◌||◌, Option, none, some, [], ◌∷◌, arith,
  leb, ◌==◌, string_eq, nat_eq, if◌then◌else◌, contains,
}
use mathlib.Core.Bool.{false≢true}
use text.Mathlib.TextLemmas.{cons-append}
use fstorex.Base.Text
use fstorex.Base.Text.{strip_prefix-append}

-- unicode.IsSpace
abbrev pub is_space : Char → Bool
is_space c =
    contains
      (9 ∷ 10 ∷ 11 ∷ 12 ∷ 13 ∷ 32 ∷ 0x85 ∷ 0xA0 ∷ 0x1680 ∷ 0x2028 ∷ 0x2029 ∷ 0x202F ∷ 0x205F
        ∷ 0x3000 ∷ [])
      (code c)
    || leb 0x2000 (code c) && leb (code c) 0x200A

unfoldable pub trim_left : String → String
trim_left String.[] = ""
trim_left (String.◌∷◌ c s) = let rest = trim_left s in if is_space c then rest else String.◌∷◌ c s

unfoldable pub trim_right : String → String
trim_right String.[] = ""
trim_right (String.◌∷◌ c s) =
    let rest = trim_right s in if is_space c && rest == "" then "" else String.◌∷◌ c rest

-- strings.TrimSpace
unfoldable pub trim_space : String → String
trim_space s = trim_right (trim_left s)

-- What stands behind the first occurrence of a text.
unfoldable pub behind : String → String → Option String
behind String.[] p = Text.strip_prefix "" p
behind (String.◌∷◌ c s) p =
    let later = behind s p in
    elim (Text.strip_prefix (String.◌∷◌ c s) p) [ some rest ↦ some rest | none ↦ later ]

abbrev pub redirect_prefix : String
redirect_prefix = "not leader, redirect to "

-- `extractLeaderAddr`
unfoldable pub extract_leader_addr : String → String
extract_leader_addr err_msg = elim (behind err_msg redirect_prefix) [
  | none ↦ ""
  | some addr ↦ trim_space addr
]

behind-prefix : (p s : String) → p ≢ "" → behind (p <> s) p ≡ some s
unfolding behind
behind-prefix String.[] s some_text = absurd (some_text refl)
behind-prefix (String.◌∷◌ c p) s some_text = rw cons-append (
    ground (
      arith,
      subst (λ t. Text.strip_prefix t (String.◌∷◌ c p) ≡ some s) (cons-append c p s)
          (strip_prefix-append (String.◌∷◌ c p) s),
    ))

redirect_prefix-text : ◌≢◌ {A = String} redirect_prefix ""
unfolding string_eq
redirect_prefix-text p = false≢true (ap (λ s. s == "") p)

pub extract-redirect :
    (leader : String) → extract_leader_addr (redirect_prefix <> leader) ≡ trim_space leader
unfolding extract_leader_addr
extract-redirect leader = ground (arith, behind-prefix redirect_prefix leader redirect_prefix-text)
