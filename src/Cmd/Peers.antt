-- ===== src/Cmd/Peers.antt =====
-- The peers of a metadata server, out of its flag (cmd/fstorex-mds/main.go).
use fstorex.Base.{
  String, ◌≡◌, ◌≢◌, refl, false, not, ◌&&◌, List, [], ◌∷◌, arith, ◌==◌, string_eq, if◌then◌else◌,
  if_both, contains, map, ap, sym, ==_iff, ◌∙◌, All,
}
use fstorex.Base.Text.{split}
use fstorex.DataNode.Heartbeat.{is_space, trim_left, trim_right, trim_space}

-- The loop over the pieces.
unfoldable pub peers_of : String → List String → List String
peers_of id [] = []
peers_of id (p ∷ pieces) =
    let rest = peers_of id pieces in
    let peer = trim_space p in if not (peer == "") && not (peer == id) then peer ∷ rest else rest

-- The peers that the flag names, between commas.
unfoldable pub parse_peers : String → String → List String
unfolding peers_of
parse_peers id text = if text == "" then [] else peers_of id (split b',' text)

-- A text with no space at its front.
abbrev StartsPlain : String → Type 0
StartsPlain String.[] = Unit
StartsPlain (String.◌∷◌ c s) = is_space c ≡ false

trim_left-StartsPlain : (s : String) → StartsPlain (trim_left s)
unfolding trim_left
trim_left-StartsPlain String.[] = tt
trim_left-StartsPlain (String.◌∷◌ c s) =
    if_both StartsPlain (is_space c) (λ _. trim_left-StartsPlain s) (λ plain. plain)

trim_right-StartsPlain : (s : String) → StartsPlain s → StartsPlain (trim_right s)
unfolding trim_right
trim_right-StartsPlain String.[] plain = tt
trim_right-StartsPlain (String.◌∷◌ c s) plain =
    if_both StartsPlain (is_space c && trim_right s == "") (λ _. tt) (λ _. plain)

trim_left-keeps : (s : String) → StartsPlain s → trim_left s ≡ s
unfolding trim_left
trim_left-keeps String.[] plain = refl
trim_left-keeps (String.◌∷◌ c s) plain = ground (arith, plain)

trim_right_idem : (s : String) → trim_right (trim_right s) ≡ trim_right s
unfolding trim_right
trim_right_idem String.[] = refl
trim_right_idem (String.◌∷◌ c s) =
    if_both (λ t. trim_right t ≡ t) (is_space c && trim_right s == "") (λ _. refl)
      (λ kept. rw (trim_right_idem s, kept) refl)

-- Nothing is left to trim of a trimmed text.
pub trim_space_idem : (s : String) → trim_space (trim_space s) ≡ trim_space s
unfolding trim_space
trim_space_idem s =
    ap trim_right (
      trim_left-keeps (trim_right (trim_left s))
        (trim_right-StartsPlain (trim_left s) (trim_left-StartsPlain s)))
    ∙ trim_right_idem (trim_left s)

-- A peer is no empty text, is not the server itself, and has no space around it.
abbrev pub IsPeer : String → String → Type 0
IsPeer id p = (p ≢ "") × (p ≢ id) × (trim_space p ≡ p)

peers_of-IsPeer : (id : String) (pieces : List String) → All (IsPeer id) (peers_of id pieces)
unfolding peers_of
peers_of-IsPeer id [] = tt
peers_of-IsPeer id (p ∷ pieces) =
    if_both (All (IsPeer id)) (not (trim_space p == "") && not (trim_space p == id))
      (λ peer. (
        (ground (arith, peer), ground (arith, peer), trim_space_idem p),
        peers_of-IsPeer id pieces,
      ))
      (λ _. peers_of-IsPeer id pieces)

-- A piece, trimmed.
contains-peers_of :
    (id q : String) (pieces : List String)
    → q ≢ ""
    → q ≢ id
    → contains (peers_of id pieces) q ≡ contains (map trim_space pieces) q
unfolding peers_of
contains-peers_of id q [] named other = refl
contains-peers_of id q (p ∷ pieces) named other =
    ground (arith, named, other, contains-peers_of id q pieces named other)

no_piece :
    (q text : String) → q ≢ "" → text ≡ "" → contains (map trim_space (split b',' text)) q ≡ false
unfolding split trim_space trim_left trim_right
no_piece q text named blank = rw blank (ground (arith, named))

-- The peers that a metadata server takes from its flag: each is no empty text, not the server itself
-- and without space around it; and every text that stands between commas there is, trimmed, among
-- them, unless it is empty or the server itself.
pub parse_peers-IsPeer :
    (id text : String)
    → All (IsPeer id) (parse_peers id text)
      × ((q : String)
          → q ≢ ""
          → q ≢ id
          → contains (parse_peers id text) q ≡ contains (map trim_space (split b',' text)) q)
unfolding parse_peers
parse_peers-IsPeer id text = (
  if_both (All (IsPeer id)) (text == "") (λ _. tt) (λ _. peers_of-IsPeer id (split b',' text)),
  λ q named other.
      if_both (λ ps. contains ps q ≡ contains (map trim_space (split b',' text)) q) (text == "")
        (λ blank. sym (no_piece q text named ((==_iff text "").0 blank)))
        (λ _. contains-peers_of id q (split b',' text) named other),
)
