-- ===== src/Uefi/DevicePath/RoundTrip.antt =====
-- `ParseFilePathList` reads what the UEFI specification writes.
use gprovision.Prelude.{
  All, Bytes, List, [], ap, append-nil, append_assoc, arith, drop, drop-append, false, length,
  length-append, ltb, suc, take, take-append, zero, ℕ, ◌%◌, ◌++◌, ◌+◌, ◌-◌, ◌/◌, ◌<◌, ◌==◌, ◌∙◌,
  ◌∷◌, ◌≡◌, ◌≢◌, ◌≤◌,
}
use gprovision.Uefi.DevicePath.{dpp_type_end, finish, header, parse_file_path_list, parse_loop}
use gprovision.Uefi.Nodes.{Header, Node, parse_node}
use gprovision.Uefi.Outcome.{parsed}

-- A node as it is written: the type and subtype, and the bytes behind the header.
pub record RawNode : Type 0 where
  pub t : ℕ
  pub s : ℕ
  pub body : Bytes

abbrev pub raw_len : RawNode → ℕ
raw_len r = length r.body + 4

abbrev pub raw_header : RawNode → Header
raw_header r = header r.t r.s (raw_len r % 256) (raw_len r / 256)

-- The nodes, each with its length, low byte first, and the end of the whole path.
unfoldable pub write_nodes : List (RawNode × Node) → Bytes
write_nodes [] = dpp_type_end ∷ 0xff ∷ 4 ∷ 0 ∷ []
write_nodes ((r, p) ∷ rs) =
    r.t ∷ r.s ∷ raw_len r % 256 ∷ raw_len r / 256 ∷ (r.body ++ write_nodes rs)

-- A node that is not the end and fits its length field, and that its parser accepts.
pub record IsRead (e : RawNode × Node) : Type 0 where
  pub not_end : e.0.t ≢ dpp_type_end
  pub fits : raw_len e.0 < 65536
  pub accepts : parse_node (raw_header e.0) e.0.body ≡ parsed e.1

abbrev pub nodes_of : List (RawNode × Node) → List Node
nodes_of [] = []
nodes_of ((r, p) ∷ rs) = p ∷ nodes_of rs

parse_loop-cons :
    (n : ℕ) (r : RawNode) (p : Node) (rest : Bytes) (list : List Node)
    → IsRead (r, p)
    → parse_loop (suc n) (r.t ∷ r.s ∷ raw_len r % 256 ∷ raw_len r / 256 ∷ (r.body ++ rest)) list
      ≡ parse_loop n rest (list ++ p ∷ [])
unfolding parse_loop
parse_loop-cons n r p rest list i =
    let size = (raw_header r).len in
    let len : size ≡ length r.body + 4 = omega arith in
    let enough : ltb size 4 ≡ false = ground (arith, len) in
    let inside : ltb (length (r.body ++ rest) + 4) size ≡ false =
      ground (arith, len, length-append r.body rest) in
    let goes_on : (r.t == dpp_type_end) ≡ false = ground (arith, i.not_end) in
    let body : size - 4 ≡ length r.body = omega (arith, len) in
    let front : take (size - 4) (r.body ++ rest) ≡ r.body = rw body (take-append r.body rest) in
    let back : drop (size - 4) (r.body ++ rest) ≡ rest = rw body (drop-append r.body rest) in
    rw (parse_loop, enough, inside, goes_on, front, back, i.accepts)

parse_loop-write_nodes :
    (n : ℕ) (rs : List (RawNode × Node)) (list : List Node)
    → All IsRead rs
    → length (write_nodes rs) ≤ n
    → parse_loop n (write_nodes rs) list ≡ parsed (list ++ nodes_of rs)
unfolding write_nodes parse_loop finish
parse_loop-write_nodes zero [] list i h = absurd (omega (arith, h))
parse_loop-write_nodes (suc n) [] list i h = rw (append-nil list)
parse_loop-write_nodes zero ((r, p) ∷ rs) list i h = absurd (omega (arith, h))
parse_loop-write_nodes (suc n) ((r, p) ∷ rs) list (i, is) h =
    parse_loop-cons n r p (write_nodes rs) list i
    ∙ parse_loop-write_nodes n rs (list ++ p ∷ []) is
        (omega (arith, h, length-append r.body (write_nodes rs)))
    ∙ ap parsed (append_assoc list (p ∷ []) (nodes_of rs))

-- A list of nodes, written with their headers and the end node, is parsed to the nodes in order if
-- each is accepted by the parser of its type.
pub parse_file_path_list-write_nodes :
    (rs : List (RawNode × Node))
    → All IsRead rs
    → parse_file_path_list (write_nodes rs) ≡ parsed (nodes_of rs)
unfolding parse_file_path_list
parse_file_path_list-write_nodes rs i =
    parse_loop-write_nodes (length (write_nodes rs)) rs [] i (omega arith)
