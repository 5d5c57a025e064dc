-- ===== src/App/Address/Advertised.antt =====
-- Splitting an address that was joined, and what the announced address is made of.
use futureq_v.Prelude.{
  slice-middle, Option-cases, ℕ, suc, ◌≡◌, refl, ◌∙◌, inl, inr, true, false, [], ◌∷◌, ◌++◌, none,
  some, ◌==◌, arith, length, drop, take-append,
}
use futureq_v.Prelude.Result.{ok}
use futureq_v.Bytes.{Bytes}
use futureq_v.App.Address.{
  index_of, last_index_of, split_plain, split_at, split_host_port, join_host_port,
  grpc_advertise_addr,
}

last_index_of-none : (c : ℕ) (bs : Bytes) → index_of c bs ≡ none → last_index_of c bs ≡ none
unfolding index_of last_index_of
last_index_of-none c [] h = refl
last_index_of-none c (b ∷ bs) h = ground (arith, last_index_of-none c bs)

last_index_of-append :
    (c : ℕ) (xs ys : Bytes)
    → index_of c ys ≡ none
    → last_index_of c (xs ++ c ∷ ys) ≡ some (length xs)
unfolding index_of last_index_of
last_index_of-append c [] ys h = ground (arith, last_index_of-none c ys h)
last_index_of-append c (b ∷ xs) ys h = rw (last_index_of-append c xs ys h) refl

index_of-append :
    (c : ℕ) (xs ys : Bytes) → index_of c xs ≡ none → index_of c (xs ++ c ∷ ys) ≡ some (length xs)
unfolding index_of
index_of-append c [] ys h = ground arith
index_of-append c (b ∷ xs) ys h = ground (arith, index_of-append c xs ys)

index_of-none :
    (c : ℕ) (xs ys : Bytes)
    → index_of c xs ≡ none
    → index_of c ys ≡ none
    → index_of c (xs ++ ys) ≡ none
unfolding index_of
index_of-none c [] ys hx hy = hy
index_of-none c (b ∷ xs) ys hx hy = ground (arith, index_of-none c xs ys)

drop-after : (c : ℕ) (xs ys : Bytes) → drop (suc (length xs)) (xs ++ c ∷ ys) ≡ ys
drop-after c [] ys = refl
drop-after c (x ∷ xs) ys = drop-after c xs ys

-- A host without brackets, and a port without brackets and colons.
pub record IsAddress (host port : Bytes) : Type 0 where
  pub host_left : index_of b'[' host ≡ none
  pub host_right : index_of b']' host ≡ none
  pub port_left : index_of b'[' port ≡ none
  pub port_right : index_of b']' port ≡ none
  pub port_colon : index_of b':' port ≡ none

index_of_cons :
    (c b : ℕ) (bs : Bytes) → (b == c) ≡ false → index_of c bs ≡ none → index_of c (b ∷ bs) ≡ none
unfolding index_of
index_of_cons c b bs e h = rw (e, h) refl

not_first : (c b : ℕ) (bs : Bytes) → index_of c (b ∷ bs) ≡ none → (b == c) ≡ false
unfolding index_of
not_first c b bs h = ground arith

plain_start :
    (b : ℕ) (rest : Bytes) (i : ℕ)
    → (b == b'[') ≡ false
    → split_at (b ∷ rest) (some i) ≡ split_plain (b ∷ rest) i
plain_start b rest i h = rw h refl

split_plain-append :
    (host port : Bytes)
    → IsAddress host port
    → index_of b':' host ≡ none
    → split_plain (host ++ b':' ∷ port) (length host) ≡ some (host, port)
split_plain-append host port a h =
    let left =
      index_of-none b'[' host (b':' ∷ port) a.host_left
        (index_of_cons b'[' b':' port refl a.port_left) in
    let right =
      index_of-none b']' host (b':' ∷ port) a.host_right
        (index_of_cons b']' b':' port refl a.port_right) in
    rw (take-append host (b':' ∷ port), h, left, right, drop-after b':' host port) refl

split_at-plain :
    (host port : Bytes)
    → IsAddress host port
    → index_of b':' host ≡ none
    → split_at (host ++ b':' ∷ port) (some (length host)) ≡ some (host, port)
split_at-plain [] port a h = plain_start b':' port 0 refl ∙ split_plain-append [] port a h
split_at-plain (b ∷ host) port a h =
    plain_start b (host ++ b':' ∷ port) (suc (length host)) (not_first b'[' b host a.host_left)
    ∙ split_plain-append (b ∷ host) port a h

split-plain :
    (host port : Bytes)
    → IsAddress host port
    → index_of b':' host ≡ none
    → split_host_port (host ++ b':' ∷ port) ≡ some (host, port)
unfolding split_host_port
split-plain host port a h =
    rw (last_index_of-append b':' host port a.port_colon) (split_at-plain host port a h)

last_index_of-second :
    (c y : ℕ) (xs ys : Bytes)
    → index_of c ys ≡ none
    → last_index_of c (xs ++ y ∷ c ∷ ys) ≡ some (suc (length xs))
unfolding last_index_of
last_index_of-second c y [] ys h = rw (last_index_of-append c [] ys h) refl
last_index_of-second c y (b ∷ xs) ys h = rw (last_index_of-second c y xs ys h) refl

drop-two : (a b : ℕ) (xs ys : Bytes) → drop (suc (suc (length xs))) (xs ++ a ∷ b ∷ ys) ≡ ys
drop-two a b [] ys = refl
drop-two a b (x ∷ xs) ys = drop-two a b xs ys

same_index : (n : ℕ) → (n == n) ≡ true
same_index n = ground arith

split-bracketed :
    (host port : Bytes)
    → IsAddress host port
    → split_host_port (b'[' ∷ host ++ b']' ∷ b':' ∷ port) ≡ some (host, port)
unfolding split_host_port index_of last_index_of
split-bracketed host port a =
    let close = index_of-append b']' host (b':' ∷ port) a.host_right in
    let left = index_of-none b'[' host (b']' ∷ b':' ∷ port) a.host_left (
      index_of_cons b'[' b']' (b':' ∷ port) refl (index_of_cons b'[' b':' port refl a.port_left)) in
    let right = index_of_cons b']' b':' port refl a.port_right in
    rw
      (
        last_index_of-second b':' b']' host port a.port_colon,
        close,
        same_index (suc (suc (length host))),
        left,
        drop-after b']' host (b':' ∷ port),
        right,
        slice-middle (b'[' ∷ []) host (b']' ∷ b':' ∷ port) 1 (suc (length host)) refl (omega arith),
        drop-two b']' b':' host port,
      )
      refl

-- Splitting what was joined gives the host and the port back: also for a host with colons, which is put
-- in brackets.
pub split_host_port-join :
    (host port : Bytes)
    → IsAddress host port
    → split_host_port (join_host_port host port) ≡ some (host, port)
unfolding join_host_port
split_host_port-join host port a = elim (Option-cases (index_of b':' host)) [
  | inl plain ↦ rw plain (split-plain host port a plain)
  | inr (i, colon) ↦ rw colon (split-bracketed host port a)
]

-- The announced address has the host of the Raft address and the port that the server listens on.
pub grpc_advertise_addr_lem :
    (host raft_port listen_host port : Bytes)
    → IsAddress host raft_port
    → IsAddress listen_host port
    → grpc_advertise_addr (join_host_port host raft_port) (join_host_port listen_host port)
      ≡ ok (join_host_port host port)
unfolding grpc_advertise_addr
grpc_advertise_addr_lem host raft_port listen_host port a b =
    rw (split_host_port-join host raft_port a, split_host_port-join listen_host port b) refl
