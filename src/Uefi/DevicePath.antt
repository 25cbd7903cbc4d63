-- ===== src/Uefi/DevicePath.antt =====
-- efiDevicePathProtocol.go `ParseFilePathList`: a list of nodes, each with a header that gives its
-- length, up to an end node.
pub mod NodeSafe
pub mod Safe
pub mod RoundTrip
use gprovision.Prelude.{
  Bool, Bytes, List, [], drop, false, if◌then◌else◌, length, ltb, not, suc, take, true, zero, ℕ,
  ◌*◌, ◌++◌, ◌+◌, ◌-◌, ◌==◌, ◌∷◌,
}
use gprovision.Uefi.Nodes.{Header, Node, parse_node}
use gprovision.Uefi.Outcome.{Outcome, e_parse, panicked, parsed, ◌>>=◌}

-- DppTypeEnd
abbrev pub dpp_type_end : ℕ
dpp_type_end = 0x7f

-- Behind the loop: all input must be used, and the end must have been seen.
unfoldable pub finish : Bool → Bytes → List Node → Outcome (List Node)
finish reached_end b list =
    if not reached_end then e_parse else if not (length b == 0) then e_parse else parsed list

abbrev pub header : ℕ → ℕ → ℕ → ℕ → Header
header t s lo hi = record { proto_type = t; proto_sub_type = s; len = lo + 256 * hi }

-- The loop, with the rounds that are left; each round takes at least the four bytes of a header.
-- When no round is left the loop has gone on for too long, which `panicked` stands for.
unfoldable pub parse_loop : ℕ → Bytes → List Node → Outcome (List Node)
parse_loop zero (t ∷ s ∷ lo ∷ hi ∷ rest) list = panicked
parse_loop (suc n) (t ∷ s ∷ lo ∷ hi ∷ rest) list =
    let h = header t s lo hi in
    let left = drop (h.len - 4) rest in
    let later : Node → Outcome (List Node) = λ p. parse_loop n left (list ++ p ∷ []) in
    if ltb h.len 4
    then e_parse
    else if ltb (length rest + 4) h.len
    then e_parse
    else if t == dpp_type_end
    then finish true left list
    else do p ← parse_node h (take (h.len - 4) rest); later p
parse_loop rounds b list = finish false b list

-- `ParseFilePathList`
unfoldable pub parse_file_path_list : Bytes → Outcome (List Node)
parse_file_path_list b = parse_loop (length b) b []
