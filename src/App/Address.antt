-- ===== src/App/Address.antt =====
-- internal/app/app.go: the address that a node announces to clients. `split_host_port` and
-- `join_host_port` are SplitHostPort and JoinHostPort of Go's package net.
pub mod Advertised
use futureq_v.Prelude.{
  ℕ, zero, suc, ◌+◌, ◌==◌, Bool, true, false, List, [], ◌∷◌, ◌++◌, Option, none, some,
  if◌then◌else◌, length, take, drop, slice,
}
use futureq_v.Prelude.Result.{
  Result, ok, err, panic, Error, ◌>>=◌, bad_raft_address, bad_listen_address,
}
use futureq_v.Bytes.{Bytes}

abbrev pub next_index : Option ℕ → Option ℕ
next_index none = none
next_index (some i) = some (suc i)

-- bytealg.IndexByteString, where none stands for -1.
unfoldable pub index_of : ℕ → Bytes → Option ℕ
index_of c [] = none
index_of c (b ∷ bs) = if b == c then some 0 else next_index (index_of c bs)

-- bytealg.LastIndexByteString
unfoldable pub last_index_of : ℕ → Bytes → Option ℕ
last_index_of c [] = none
last_index_of c (b ∷ bs) = elim (last_index_of c bs) [
  | some i ↦ some (suc i)
  | none ↦ if b == c then some 0 else none
]

abbrev is_in : Option ℕ → Bool
is_in none = false
is_in (some i) = true

-- The last checks: no bracket from `j` and `k` on.
abbrev check_brackets : Bytes → (i j k : ℕ) → Bytes → Option (Bytes × Bytes)
check_brackets hostport i j k host =
    if is_in (index_of b'[' (drop j hostport))
    then none
    else if is_in (index_of b']' (drop k hostport))
    then none
    else some (host, drop (suc i) hostport)

abbrev split_bracketed : Bytes → ℕ → Option ℕ → Option (Bytes × Bytes)
split_bracketed hostport i none = none
split_bracketed hostport i (some end) =
    if suc end == i then check_brackets hostport i 1 (suc end) (slice hostport 1 end) else none

abbrev split_plain : Bytes → ℕ → Option (Bytes × Bytes)
split_plain hostport i =
    if is_in (index_of b':' (take i hostport))
    then none
    else check_brackets hostport i 0 0 (take i hostport)

abbrev split_at : Bytes → Option ℕ → Option (Bytes × Bytes)
split_at hostport none = none
split_at [] (some i) = none
split_at (b ∷ rest) (some i) =
    if b == b'['
    then split_bracketed (b ∷ rest) i (index_of b']' (b ∷ rest))
    else split_plain (b ∷ rest) i

-- Its errors are one here.
unfoldable pub split_host_port : Bytes → Option (Bytes × Bytes)
unfolding index_of last_index_of
split_host_port hostport = split_at hostport (last_index_of b':' hostport)

unfoldable pub join_host_port : Bytes → Bytes → Bytes
unfolding index_of
join_host_port host port =
    if is_in (index_of b':' host) then b'[' ∷ host ++ b']' ∷ b':' ∷ port else host ++ b':' ∷ port

abbrev or_error : {A : Type 0} → Error → Option A → Result A
or_error e none = err e
or_error e (some a) = ok a

unfoldable pub grpc_advertise_addr : (raft_addr grpc_listen : Bytes) → Result Bytes
unfolding split_host_port join_host_port
grpc_advertise_addr raft_addr grpc_listen = do
  (host, _) ← or_error bad_raft_address (split_host_port raft_addr)
  (_, port) ← or_error bad_listen_address (split_host_port grpc_listen)
  ok (join_host_port host port)
