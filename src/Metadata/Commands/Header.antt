-- ===== src/Metadata/Commands/Header.antt =====
-- What fits the wire format of the metadata commands, and the numbers at the start of a topology command.
use futureq_v.Prelude.{
  ℕ, ◌%◌, ◌^◌, ◌<◌, ◌≡◌, refl, ◌∙◌, [], ◌∷◌, ◌++◌, append_assoc, arith, ap, slice, leb, true,
  length, length-append, All,
}
use futureq_v.Bytes.{Bytes, IsU64, be_bytes, length-be_bytes, be_value_one, be_value}
use futureq_v.Bytes.Read.{read_block, read_number}
use futureq_v.Metadata.IdMap.{IdMap, IsIdMap}
use futureq_v.Metadata.Commands.{ShardTopology}

-- An id is a uint64, and an address has a length that a uint16 holds.
abbrev pub IsNode : ℕ × Bytes → Type 0
IsNode (id, addr) = IsU64 id × (length addr < 2 ^ 16)

-- A map that fits the wire format.
abbrev pub IsNodeMap : IdMap Bytes → Type 0
IsNodeMap m = IsIdMap m × All IsNode m × (length m < 2 ^ 16)

pub record IsTopology (t : ShardTopology) : Type 0 where
  pub shard_u64 : IsU64 t.shard_id
  pub leader_u64 : IsU64 t.leader_id
  pub term_u64 : IsU64 t.term
  pub epoch_u64 : IsU64 t.epoch
  pub config_u64 : IsU64 t.config_change_id
  pub short_addr : length t.leader_addr < 2 ^ 16
  pub nodes_fit : IsNodeMap t.nodes
  pub non_votings_fit : IsNodeMap t.non_votings
  pub witnesses_fit : IsNodeMap t.witnesses
  pub grpc_addrs_fit : IsNodeMap t.grpc_addrs

ruleset sizes = (length-append, length-be_bytes)

-- The five numbers and the address at the start of a topology command.
unfoldable pub header : ShardTopology → Bytes
header t =
    (0 ∷ [])
    ++ be_bytes 8 t.shard_id
    ++ be_bytes 8 t.leader_id
    ++ be_bytes 8 t.term
    ++ be_bytes 8 t.epoch
    ++ be_bytes 8 t.config_change_id
    ++ be_bytes 2 (length t.leader_addr % 2 ^ 16)

pub length-header : (t : ShardTopology) → length (header t) ≡ 43
unfolding header
length-header t = simp (length-append, length-be_bytes)

-- The numbers of a command that starts with the header.
pub record HasHeader (t : ShardTopology) (xs : Bytes) : Type 0 where
  pub tag_at : be_value (slice xs 0 1) ≡ 0
  pub shard_at : be_value (slice xs 1 9) ≡ t.shard_id
  pub leader_at : be_value (slice xs 9 17) ≡ t.leader_id
  pub term_at : be_value (slice xs 17 25) ≡ t.term
  pub epoch_at : be_value (slice xs 25 33) ≡ t.epoch
  pub config_at : be_value (slice xs 33 41) ≡ t.config_change_id
  pub length_at : be_value (slice xs 41 43) ≡ length t.leader_addr
  pub long_enough : leb 43 (length xs) ≡ true

pub header-HasHeader :
    (t : ShardTopology) (xs rest : Bytes) → xs ≡ header t ++ rest → IsTopology t → HasHeader t xs
unfolding header
header-HasHeader t xs rest layout h =
    let b1 = be_bytes 8 t.shard_id in
    let b2 = be_bytes 8 t.leader_id in
    let b3 = be_bytes 8 t.term in
    let b4 = be_bytes 8 t.epoch in
    let b5 = be_bytes 8 t.config_change_id in
    let len = be_bytes 2 (length t.leader_addr % 2 ^ 16) in
    let tag : Bytes = 0 ∷ [] in
    let l0 : xs ≡ [] ++ tag ++ (b1 ++ b2 ++ b3 ++ b4 ++ b5 ++ len ++ rest) =
      layout ∙ simp append_assoc refl in
    let l1 : xs ≡ tag ++ b1 ++ (b2 ++ b3 ++ b4 ++ b5 ++ len ++ rest) =
      layout ∙ simp append_assoc refl in
    let l2 : xs ≡ tag ++ b1 ++ b2 ++ (b3 ++ b4 ++ b5 ++ len ++ rest) =
      layout ∙ simp append_assoc refl in
    let l3 : xs ≡ tag ++ b1 ++ b2 ++ b3 ++ (b4 ++ b5 ++ len ++ rest) =
      layout ∙ simp append_assoc refl in
    let l4 : xs ≡ tag ++ b1 ++ b2 ++ b3 ++ b4 ++ (b5 ++ len ++ rest) =
      layout ∙ simp append_assoc refl in
    let l5 : xs ≡ tag ++ b1 ++ b2 ++ b3 ++ b4 ++ b5 ++ (len ++ rest) =
      layout ∙ simp append_assoc refl in
    let l6 : xs ≡ tag ++ b1 ++ b2 ++ b3 ++ b4 ++ b5 ++ len ++ rest =
      layout ∙ simp append_assoc refl in
    let r6 =
      read_number xs (tag ++ b1 ++ b2 ++ b3 ++ b4 ++ b5) rest 2 (length t.leader_addr % 2 ^ 16) 41
        43 l6 (omega arith) (simp sizes) refl in
    record {
      tag_at = ap be_value (read_block xs [] tag _ l0 0 1 refl refl) ∙ be_value_one 0;
      shard_at = (read_number xs tag _ 8 t.shard_id 1 9 l1 h.shard_u64 refl refl).0;
      leader_at =
          (read_number xs (tag ++ b1) _ 8 t.leader_id 9 17 l2 h.leader_u64 (simp sizes) refl).0;
      term_at =
          (read_number xs (tag ++ b1 ++ b2) _ 8 t.term 17 25 l3 h.term_u64 (simp sizes) refl).0;
      epoch_at =
          (read_number xs (tag ++ b1 ++ b2 ++ b3) _ 8 t.epoch 25 33 l4 h.epoch_u64 (simp sizes)
            refl).0;
      config_at =
          (read_number xs (tag ++ b1 ++ b2 ++ b3 ++ b4) _ 8 t.config_change_id 33 41 l5 h.config_u64
            (simp sizes) refl).0;
      length_at = r6.0 ∙ omega (arith, h.short_addr);
      long_enough = r6.1;
    }
