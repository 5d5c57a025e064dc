-- ===== src/Dispatcher/Hub/RoundRobin.antt =====
-- The round-robin strategy: it always picks a member, and rotates through a group that stays as it is.
use futureq_v.Prelude.{
  ℕ, zero, suc, ◌+◌, ◌%◌, ◌<◌, ◌≡◌, refl, ap, ◌∙◌, List, [], ◌∷◌, some, arith, length,
}
use futureq_v.Maps.{lookup, lookup-insert_self}
use futureq_v.Dispatcher.Hub.{
  ConsumerEntry, RoundRobin, select, group_key, get_elem?, index_or_zero,
}
use native.Mathlib.Nat.{mod-lt, mod-add-mod}

get_elem?-some {ℓ} :
    {A : Type ℓ} (xs : List A) (i : ℕ) → i < length xs → (x : A) × (get_elem? xs i ≡ some x)
get_elem?-some [] i h = absurd (omega arith)
get_elem?-some (x ∷ xs) zero h = (x, refl)
get_elem?-some (x ∷ xs) (suc i) h = get_elem?-some xs i (omega arith)

-- From a group that is not empty some member is selected.
pub select_total :
    (c : ConsumerEntry) (cs : List ConsumerEntry) (next : RoundRobin)
    → (e : ConsumerEntry) × ((select (c ∷ cs) next).1 ≡ some e)
unfolding select
select_total c cs next =
    get_elem?-some (c ∷ cs) _ (mod-lt (index_or_zero (lookup (group_key c) next)) (omega arith))

-- What is selected is a member.
pub select_member :
    (cs : List ConsumerEntry) (next : RoundRobin) {e : ConsumerEntry}
    → (select cs next).1 ≡ some e
    → (i : ℕ) × (get_elem? cs i ≡ some e)
unfolding select
select_member [] next h = cc
select_member (c ∷ cs) next h = (_, h)

-- The counter of a group of which `c` is the first member.
abbrev pub counter : ConsumerEntry → RoundRobin → ℕ
counter c next = index_or_zero (lookup (group_key c) next)

pub counter-select :
    (c : ConsumerEntry) (cs : List ConsumerEntry) (next : RoundRobin)
    → counter c (select (c ∷ cs) next).0 ≡ (counter c next + 1) % length (c ∷ cs)
unfolding select
counter-select c cs next = ap index_or_zero (lookup-insert_self (group_key c) _ next)

-- `k` selections in a row, and then the state.
abbrev pub select_times : ℕ → List ConsumerEntry → RoundRobin → RoundRobin
select_times zero cs next = next
select_times (suc k) cs next = select_times k cs (select cs next).0

add_mod : (a k n : ℕ) → ((a + 1) % n + k) % n ≡ (a + suc k) % n
add_mod a k n = mod-add-mod (a + 1) n k ∙ ap (λ (m : ℕ). m % n) (omega arith)

counter-select_times :
    (k : ℕ) (c : ConsumerEntry) (cs : List ConsumerEntry) (next : RoundRobin)
    → counter c (select_times k (c ∷ cs) next) % length (c ∷ cs)
      ≡ (counter c next + k) % length (c ∷ cs)
counter-select_times zero c cs next =
    ap (λ (n : ℕ). n % length (c ∷ cs))
      (let e : counter c next ≡ counter c next + 0 = omega arith in e)
counter-select_times (suc k) c cs next =
    counter-select_times k c cs (select (c ∷ cs) next).0
    ∙ ap (λ (n : ℕ). (n + k) % length (c ∷ cs)) (counter-select c cs next)
    ∙ add_mod (counter c next) k (length (c ∷ cs))

-- After `k` selections from an unchanged group the member `k` places further on is next, so that
-- as many selections as there are members serve each of them once.
select_rotates :
    (k : ℕ) (c : ConsumerEntry) (cs : List ConsumerEntry) (next : RoundRobin)
    → (select (c ∷ cs) (select_times k (c ∷ cs) next)).1
      ≡ get_elem? (c ∷ cs) ((counter c next + k) % length (c ∷ cs))
unfolding select
select_rotates k c cs next = ap (get_elem? (c ∷ cs)) (counter-select_times k c cs next)
