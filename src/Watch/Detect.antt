-- ===== src/Watch/Detect.antt =====
-- EXEC notices a write to a watched key.
use invar.Prelude.{
  ℕ, ◌^◌, ◌<◌, ◌≡◌, ◌≢◌, ◌∙◌, refl, sym, ap, subst, Bool, true, false, List, [], ◌∷◌, ◌==◌, ==_iff,
  ◌||◌, ◌&&◌, Result, Bytes, bytes_eq, bytes_eq→eq, bytes_eq_refl, arith, Bool-cases, inl, inr,
}
use invar.Kv.{Tx, KvError}
use invar.Registry.{WatchRegistry, get_version, bump_versions}
use invar.Registry.Queues.{has_key}
use invar.Registry.Delivery.{times, get_version-bump_versions}
use invar.Watch.{
  Watched, WatchSet, insert, existed_in, watch_all, snapshot_and_watch, all_unchanged, may_exec,
}

-- The key is recorded with this version.
abbrev is_recorded : Bytes → ℕ → List Watched → Bool
is_recorded k v [] = false
is_recorded k v (w ∷ ws) = bytes_eq w.key k && (w.version == v) || is_recorded k v ws

insert-recorded_self :
    (w : Watched) (ws : List Watched) → is_recorded w.key w.version (insert w ws) ≡ true
unfolding insert
insert-recorded_self w [] = ground (arith, bytes_eq_refl w.key)
insert-recorded_self w (x ∷ xs) = ground (arith, bytes_eq_refl w.key, insert-recorded_self w xs)

insert-recorded_other :
    (w : Watched) (k : Bytes) (v : ℕ) (ws : List Watched)
    → bytes_eq w.key k ≡ false
    → is_recorded k v ws ≡ true
    → is_recorded k v (insert w ws) ≡ true
unfolding insert
insert-recorded_other w k v [] n h = cc
insert-recorded_other w k v (x ∷ xs) n h = elim (Bool-cases (bytes_eq w.key x.key)) [
  | inl e ↦
      let other : bytes_eq x.key k ≡ false =
        sym (ap (λ y. bytes_eq y k) (bytes_eq→eq w.key x.key e)) ∙ n in
      rw e (ground (arith, h, n, other))
  | inr e ↦ rw e (ground (arith, h, insert-recorded_other w k v xs n))
]

times_pos : (k : Bytes) (keys : List Bytes) → has_key k keys ≡ true → 0 < times k keys
times_pos k [] h = cc
times_pos k (key ∷ keys) h = ground (arith, times_pos k keys)

module _ (t : Tx) where
  open t use {State, get}

  recorded :
      (r : WatchRegistry) (tx : Result KvError State) (key k : Bytes) (ws : List Watched)
      → bytes_eq key k ≡ true
      → is_recorded k (get_version r k) (
          insert
            (record { key = key; version = get_version r key; existed = existed_in t tx key })
            ws)
        ≡ true
  recorded r tx key k ws e =
      subst
        (λ x.
          is_recorded x (get_version r x) (
            insert
              (record { key = key; version = get_version r key; existed = existed_in t tx key }) ws)
          ≡ true)
        (bytes_eq→eq key k e)
        (insert-recorded_self
          (record { key = key; version = get_version r key; existed = existed_in t tx key }) ws)

  watch_all_keeps :
      (r : WatchRegistry) (tx : Result KvError State) (keys : List Bytes) (ws : List Watched)
      (k : Bytes)
      → is_recorded k (get_version r k) ws ≡ true
      → is_recorded k (get_version r k) (watch_all t r tx keys ws) ≡ true
  unfolding watch_all
  watch_all_keeps r tx [] ws k h = h
  watch_all_keeps r tx (key ∷ keys) ws k h =
      watch_all_keeps r tx keys _ k (elim (Bool-cases (bytes_eq key k)) [
        | inl e ↦ (recorded r tx key k ws e)
        | inr e ↦
            insert-recorded_other
              (record { key = key; version = get_version r key; existed = existed_in t tx key }) k
              (get_version r k) ws e h
      ])

  watch_all_records :
      (r : WatchRegistry) (tx : Result KvError State) (keys : List Bytes) (ws : List Watched)
      (k : Bytes)
      → has_key k keys ≡ true
      → is_recorded k (get_version r k) (watch_all t r tx keys ws) ≡ true
  unfolding watch_all
  watch_all_records r tx [] ws k h = cc
  watch_all_records r tx (key ∷ keys) ws k h = elim (Bool-cases (bytes_eq key k)) [
    | inl e ↦ watch_all_keeps r tx keys _ k (recorded r tx key k ws e)
    | inr e ↦ watch_all_records r tx keys _ k (rw e at h)
  ]

  changed_version :
      (r : WatchRegistry) (s : State) (k : Bytes) (v : ℕ) (ws : List Watched)
      → is_recorded k v ws ≡ true
      → get_version r k ≢ v
      → all_unchanged t r s ws ≡ false
  unfolding all_unchanged
  changed_version r s k v [] h n = cc
  changed_version r s k v (w ∷ ws) h n = elim (Bool-cases (bytes_eq w.key k && (w.version == v))) [
    | inl e ↦
        let both : (bytes_eq w.key k ≡ true) × ((w.version == v) ≡ true) = ground (arith, e) in
        elim (Bool-cases (get_version r w.key == w.version)) [
          | inl y ↦ absurd (
              n (
                ap (get_version r) (sym (bytes_eq→eq w.key k both.0))
                ∙ (==_iff (get_version r w.key) w.version).0 y
                ∙ (==_iff w.version v).0 both.1))
          | inr y ↦ rw y refl
        ]
    | inr e ↦ rw (changed_version r s k v ws (rw e at h) n) (ground arith)
  ]

  exec_changed :
      (r : WatchRegistry) (s : State) (ws : WatchSet) (k : Bytes) (v : ℕ) (l : List Watched)
      → ws.watched_keys ≡ l
      → is_recorded k v l ≡ true
      → all_unchanged t r s l ≡ false
      → may_exec t r s ws ≡ false
  exec_changed r s ws k v [] e h n = cc
  exec_changed r s ws k v (w ∷ rest) e h n = unfold may_exec in rw (e, n) (ground arith)

  -- A key that was watched and whose version a commit raised since fails the check of EXEC, whatever the
  -- store holds then: a write that restores the old value is noticed too. The commit wrote
  -- the key less than 2 ^ 64 times, and the version was below 2 ^ 64.
  pub may_exec-bump_versions :
      (r : WatchRegistry) (tx : Result KvError State) (s : State) (ws : WatchSet)
      (keys written : List Bytes) (k : Bytes)
      → has_key k keys ≡ true
      → has_key k written ≡ true
      → times k written < 2 ^ 64
      → get_version r k < 2 ^ 64
      → may_exec t (bump_versions r written) s (snapshot_and_watch t r tx ws keys) ≡ false
  may_exec-bump_versions r tx s ws keys written k watched wrote few small =
      let fresh : get_version (bump_versions r written) k ≢ get_version r k = λ e.
        omega (arith, e, get_version-bump_versions r written k small, times_pos k written wrote) in
      exec_changed (bump_versions r written) s (snapshot_and_watch t r tx ws keys) k
        (get_version r k) (watch_all t r tx keys ws.watched_keys)
        (unfold snapshot_and_watch in refl) (watch_all_records r tx keys ws.watched_keys k watched)
        (changed_version (bump_versions r written) s k (get_version r k)
          (watch_all t r tx keys ws.watched_keys)
          (watch_all_records r tx keys ws.watched_keys k watched) fresh)
