-- ===== src/Config/Overrides.antt =====
-- internal/config/config.go: the environment variables that `Load` reads after the file.
use futureq_v.Prelude.{
  ℕ, ◌+◌, ◌*◌, ◌-◌, ◌^◌, ◌<◌, ◌≤◌, ◌≡◌, refl, ap, ◌∙◌, List, [], ◌∷◌, Option, none, some, ◌&&◌, leb,
  ltb, if◌then◌else◌, All, arith,
}
use futureq_v.Prelude.Method.{M}
use futureq_v.Bytes.{Bytes}
use futureq_v.Config.{
  Config, RaftConfig, check_config, run_post_load_hooks, validate_storage, validate_raft,
}

-- ── strconv.ParseUint(s, 10, 64) ──

abbrev parse_digit : ℕ → Option ℕ
parse_digit b = if leb b'0' b && leb b b'9' then some (b - b'0') else none

-- The digits that are left, behind those that make `n`.
unfoldable pub parse_digits : ℕ → Bytes → Option ℕ
parse_digits n [] = some n
parse_digits n (b ∷ bs) = elim (parse_digit b) [
  | none ↦ none
  | some d ↦
      let rest = parse_digits (n * 10 + d) bs in if ltb (n * 10 + d) (2 ^ 64) then rest else none
]

unfoldable pub parse_uint : Bytes → Option ℕ
unfolding parse_digits
parse_uint [] = none
parse_uint (b ∷ bs) = parse_digits 0 (b ∷ bs)

-- ── the overrides; a variable that is not set is empty ──

abbrev node_id_or : ℕ → Option ℕ → ℕ
node_id_or old none = old
node_id_or old (some n) = n

abbrev address_or : Bytes → Bytes → Bytes
address_or old [] = old
address_or old (b ∷ bs) = b ∷ bs

unfoldable pub override_raft : (node_id listen_address : Bytes) → RaftConfig → RaftConfig
unfolding parse_uint
override_raft node_id address r = record r {
  node_id = node_id_or r.node_id (parse_uint node_id);
  listen_address = address_or r.listen_address address;
}

unfoldable pub load : (node_id listen_address : Bytes) → M Config (Unit {0})
unfolding override_raft check_config
load node_id address c = check_config (record c { raft = override_raft node_id address c.raft })

-- ── what is parsed ──

-- The digits of a number, the first of them first, behind those that make `n`.
abbrev digits_value : ℕ → List ℕ → ℕ
digits_value n [] = n
digits_value n (d ∷ ds) = digits_value (n * 10 + d) ds

abbrev digits_text : List ℕ → Bytes
digits_text [] = []
digits_text (d ∷ ds) = (b'0' + d) ∷ digits_text ds

value_le : (n : ℕ) (ds : List ℕ) → n ≤ digits_value n ds
value_le n [] = omega arith
value_le n (d ∷ ds) = ground (arith, value_le (n * 10 + d) ds)

parse_digits-text :
    (n : ℕ) (ds : List ℕ)
    → All (λ (d : ℕ). d < 10) ds
    → digits_value n ds < 2 ^ 64
    → parse_digits n (digits_text ds) ≡ some (digits_value n ds)
unfolding parse_digits
parse_digits-text n [] h small = refl
parse_digits-text n (d ∷ ds) (hd, h) small =
    ground (arith, value_le (n * 10 + d) ds, parse_digits-text (n * 10 + d) ds)

check_config-raft : (c : Config) → (check_config c).0.raft ≡ c.raft
unfolding check_config run_post_load_hooks validate_storage validate_raft
check_config-raft c = ground arith

-- Where FUTUREQ_RAFT_NODEID holds the decimal digits of a number below 2 ^ 64, that number is the node id
-- of the configuration, whatever the file gives and also where a check fails.
load-node_id :
    (d : ℕ) (ds : List ℕ) (address : Bytes) (c : Config)
    → All (λ (x : ℕ). x < 10) (d ∷ ds)
    → digits_value 0 (d ∷ ds) < 2 ^ 64
    → (load (digits_text (d ∷ ds)) address c).0.raft.node_id ≡ digits_value 0 (d ∷ ds)
unfolding load override_raft parse_uint
load-node_id d ds address c digits small =
    let c1 = record c { raft = override_raft (digits_text (d ∷ ds)) address c.raft } in
    ap (λ (r : RaftConfig). r.node_id) (check_config-raft c1)
    ∙ ap (node_id_or c.raft.node_id) (parse_digits-text 0 (d ∷ ds) digits small)
