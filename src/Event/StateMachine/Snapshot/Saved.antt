-- ===== src/Event/StateMachine/Snapshot/Saved.antt =====
-- What a snapshot of the event shard holds, entry by entry.
use futureq_v.Prelude.{
  ℕ, ◌+◌, ◌%◌, ◌^◌, ◌<◌, ◌≡◌, refl, ap, ◌∙◌, [], ◌∷◌, ◌++◌, append_assoc, append-nil, Bool, false,
  length, All, arith,
}
use futureq_v.Prelude.Result.{ok}
use futureq_v.Prelude.Method.{M, for_each}
use futureq_v.Bytes.{Bytes}
use futureq_v.Bytes.Reader.{le_bytes}
use futureq_v.Storage.{range-unbounded, Db, unbounded, scan_db}
use futureq_v.Storage.Content.{Entries}
use futureq_v.Event.StateMachine.Snapshot.{save_entry, save_snapshot}

-- A stop channel that stays open, and a writer that collects the bytes.
abbrev pub never : ℕ → Bool
never n = false

abbrev pub collect : Bytes → M Bytes (Unit {0})
collect b written = (written ++ b, ok tt)

abbrev pub encode_entries : Entries → Bytes
encode_entries [] = []
encode_entries ((k, v) ∷ es) =
    le_bytes 4 (length k) ++ (k ++ (le_bytes 4 (length v) ++ (v ++ encode_entries es)))

-- Lengths that a uint32 holds.
abbrev pub Fits : Entries → Type 0
Fits es = All (λ (kv : Bytes × Bytes). (length kv.0 < 2 ^ 32) × (length kv.1 < 2 ^ 32)) es

save_entry_lem :
    (k v w : Bytes) (n : ℕ)
    → length k < 2 ^ 32
    → length v < 2 ^ 32
    → save_entry never collect (k, v) (record { state = w; polls = n }) ≡ (
      record {
        state = w ++ (le_bytes 4 (length k) ++ (k ++ (le_bytes 4 (length v) ++ v)));
        polls = n + 1;
      },
      ok tt,
    )
unfolding save_entry
save_entry_lem k v w n hk hv =
    let ek : length k % 2 ^ 32 ≡ length k = omega arith in
    let ev : length v % 2 ^ 32 ≡ length v = omega arith in
    rw (ek, ev)
      (ap (λ (out : Bytes). (record { state = out; polls = n + 1 }, ok tt))
        (append_assoc ((w ++ le_bytes 4 (length k)) ++ k) (le_bytes 4 (length v)) v
          ∙ append_assoc (w ++ le_bytes 4 (length k)) k (le_bytes 4 (length v) ++ v)
          ∙ append_assoc w (le_bytes 4 (length k)) (k ++ (le_bytes 4 (length v) ++ v))))

for_each-save_entry :
    (es : Entries) (w : Bytes) (n : ℕ)
    → Fits es
    → for_each (save_entry never collect) es (record { state = w; polls = n })
      ≡ (record { state = w ++ encode_entries es; polls = n + length es }, ok tt)
for_each-save_entry [] w n h = ground (arith, append-nil w)
for_each-save_entry ((k, v) ∷ es) w n ((hk, hv), h) =
    let lk = le_bytes 4 (length k) in
    let lv = le_bytes 4 (length v) in
    let tail = encode_entries es in
    rw (save_entry_lem k v w n hk hv) (
      for_each-save_entry es (w ++ (lk ++ (k ++ (lv ++ v)))) (n + 1) h
      ∙ ap (λ (out : Bytes). (record { state = out; polls = n + 1 + length es }, ok tt))
          (append_assoc w (lk ++ (k ++ (lv ++ v))) tail
            ∙ ap (λ (x : Bytes). w ++ x)
                (append_assoc lk (k ++ (lv ++ v)) tail
                  ∙ ap (λ (x : Bytes). lk ++ x)
                      (append_assoc k (lv ++ v) tail
                        ∙ ap (λ (x : Bytes). k ++ x) (append_assoc lv v tail))))
      ∙ ap
          (λ (m : ℕ).
            (record { state = w ++ (lk ++ (k ++ (lv ++ (v ++ tail)))); polls = m }, ok tt))
          (omega arith))

module _ {D B : Type 0} (db : Db D B) where
  pub save_snapshot-encoded :
      (d : D)
      → Fits (db.entries d)
      → (db.visit unbounded d).1 ≡ ok tt
      → (save_snapshot never collect db d (record { state = []; polls = 0 })).0.state
        ≡ encode_entries (db.entries d)
  unfolding save_snapshot scan_db
  save_snapshot-encoded d h hv =
      rw
        (
          db.visit_range unbounded d hv ∙ range-unbounded (db.entries d),
          for_each-save_entry (db.entries d) [] 0 h,
        )
        refl
