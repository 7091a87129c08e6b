-- ===== src/Store/Ops/Keeps.antt =====
-- An induction rule for the operations of pkg/store/store.go: what their parts keep, every sequence
-- of operations keeps.
use fast_and_accurate_store.Base.{
  ℕ, ◌+◌, ◌-◌, ◌≡◌, some, List, [], ◌∷◌, Bytes, arith, add64, Option-cases, inl, inr,
}
use fast_and_accurate_store.Base.Table.{lookup}
use fast_and_accurate_store.Store.Types.{Item}
use fast_and_accurate_store.Store.State.{Store, delete_key}
use fast_and_accurate_store.Store.Ops.{
  touch, get_unlocked, set, delete, expire_sample, expire_all, active_expire,
}

-- The calls that the program makes of a store while it serves clients, with what each reads from
-- the clock and the orders in which its loops visit the map.
pub data Op : Type 0 where
  set_op : (order : List Bytes) (key value : Bytes) (ttl now later : ℕ) → Op
  get_op : (key : Bytes) (now : ℕ) → Op
  delete_op : (key : Bytes) → Op
  expire_op : (order again : List Bytes) (now : ℕ) → Op

unfoldable pub apply : Op → Store → Store
unfolding set get_unlocked delete active_expire
apply (set_op order key value ttl now later) s = set order s key value ttl now later
apply (get_op key now) s = (get_unlocked s key now).1
apply (delete_op key) s = delete s key
apply (expire_op order again now) s = active_expire order again s now

-- The operations of all threads, in the order in which they held the lock.
unfoldable pub run : List Op → Store → Store
unfolding apply
run [] s = s
run (op ∷ ops) s = run ops (apply op s)

module _ {ℓ} (P : Store → Type ℓ)
    (keep_delete : (s : Store) (key : Bytes) → P s → P (delete_key s key))
    (keep_count : (s : Store) (n : ℕ) → P s → P (record s { expired_count = n }))
    (keep_touch : (s : Store) (key : Bytes) (item : Item) (now : ℕ)
      → lookup key s.items ≡ some item
      → P s
      → P (touch s key item now)) where
  pub get_unlocked-keeps : (s : Store) (key : Bytes) (now : ℕ) → P s → P (get_unlocked s key now).1
  unfolding get_unlocked
  get_unlocked-keeps s key now p = elim (Option-cases (lookup key s.items)) [
    | inl e ↦ ground arith
    | inr (item, e) ↦ ground (
      arith,
      keep_touch s key item now e p,
      keep_count (delete_key s key) (add64 s.expired_count 1) (keep_delete s key p),
    )
  ]

  expire_sample-keeps :
      (left : ℕ) (order : List Bytes) (s : Store) (now expired : ℕ)
      → P s
      → P (expire_sample left order s now expired).0
  unfolding expire_sample
  expire_sample-keeps left [] s now expired p = p
  expire_sample-keeps left (key ∷ order) s now expired p = ground (
    arith,
    expire_sample-keeps left order s now expired p,
    expire_sample-keeps (left - 1) order s now expired p,
    expire_sample-keeps (left - 1) order
        (record (delete_key s key) { expired_count = add64 s.expired_count 1 }) now (expired + 1)
        (keep_count (delete_key s key) (add64 s.expired_count 1) (keep_delete s key p)),
  )

  expire_all-keeps : (order : List Bytes) (s : Store) (now : ℕ) → P s → P (expire_all order s now)
  unfolding expire_all
  expire_all-keeps [] s now p = p
  expire_all-keeps (key ∷ order) s now p = ground (
    arith,
    expire_all-keeps order s now p,
    expire_all-keeps order (delete_key s key) now (keep_delete s key p),
  )

  pub active_expire-keeps :
      (order again : List Bytes) (s : Store) (now : ℕ) → P s → P (active_expire order again s now)
  unfolding active_expire
  active_expire-keeps order again s now p =
      let q = expire_sample-keeps 20 order s now 0 p in
      ground (arith, expire_all-keeps again (expire_sample 20 order s now 0).0 now q)

  module _
      (keep_set : (order : List Bytes) (s : Store) (key value : Bytes) (ttl now later : ℕ)
        → P s
        → P (set order s key value ttl now later)) where
    pub apply-keeps : (op : Op) (s : Store) → P s → P (apply op s)
    unfolding apply delete
    apply-keeps (set_op order key value ttl now later) s p =
        keep_set order s key value ttl now later p
    apply-keeps (get_op key now) s p = get_unlocked-keeps s key now p
    apply-keeps (delete_op key) s p = keep_delete s key p
    apply-keeps (expire_op order again now) s p = active_expire-keeps order again s now p

    pub run-keeps : (ops : List Op) (s : Store) → P s → P (run ops s)
    unfolding run
    run-keeps [] s p = p
    run-keeps (op ∷ ops) s p = run-keeps ops (apply op s) (apply-keeps op s p)
