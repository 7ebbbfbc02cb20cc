-- ===== src/Attribution/Every.antt =====
-- Properties of every connection in memory, through `na_process_find_from_connection`.
use gnome_usage.Base.{
  ℕ, ◌≡◌, refl, sym, ◌∙◌, Option, none, some, inl, inr, Option-cases, nat_eq, subst,
}
use gnome_usage.Base.Text.{Text, text_eq}
use gnome_usage.Base.Assoc.{lookup}
use gnome_usage.Outcome.{ok, Yields, Yields-bind, Yields-any}
use gnome_usage.Packet.{Packet}
use gnome_usage.Connection.{Connection, connection_get_refpacket}
use gnome_usage.Inodeproc.{inodeproc_table_refresh, inodeproc_table_find_pid}
use gnome_usage.Store.{deref}
use gnome_usage.Store.Every.{Every, IsKept, deref-Every, assign-Every}
use gnome_usage.Process.{World, State, find_process_from_program}
use gnome_usage.Attribution.{
  find_inode, get_process_from_inode, place_or_new, process_find_from_connection,
}

module _ (world : World) where
  find_inode-store :
      (s : State) (key : Text) → Yields (λ (s', inode). s'.store ≡ s.store) (find_inode world s key)
  unfolding find_inode
  find_inode-store s key = elim (Option-cases (lookup key s.conninode)) [
    | inl e ↦
        rw (e, Yields)
          (Yields-bind _ (λ (s', inode). s'.store ≡ s.store)
            (inodeproc_table_refresh s.inodeproc (world.proc s.reads).entries) _ (Yields-any _)
            λ table u. refl)
    | inr (inode, e) ↦ rw (e, Yields) refl
  ]

  get_process-store :
      (s : State) (inode : ℕ)
      → Yields (λ (s', place). s'.store ≡ s.store) (get_process_from_inode world s inode)
  unfolding get_process_from_inode
  get_process-store s inode =
      Yields-bind _ (λ (s', place). s'.store ≡ s.store)
        (inodeproc_table_find_pid s.inodeproc inode (world.proc s.reads).entries) _ (Yields-any _)
        λ (table, found) u. elim (Option-cases found) [
          | inl e ↦ rw (e, Yields) refl
          | inr (node, e) ↦
              rw (e, Yields)
                (elim (Option-cases (find_process_from_program s.processes node)) [
                  | inl new ↦ rw (new, Yields) refl
                  | inr (i, old) ↦ rw (old, Yields) refl
                ])
        ]

  place-store :
      (s : State) (key : Text) (found : Option ℕ)
      → (place_or_new world s key found).0.store ≡ s.store
  unfolding place_or_new
  place-store s key none = refl
  place-store s key (some place) = refl

  module _ (R : Packet → Type 0) (Q : Connection → Type 0) (kept : IsKept world.ntop R Q) where
    pub find_from_connection-Every :
        (s : State) (a : ℕ)
        → Every Q s.store
        → Yields (λ (s', place). Every Q s'.store) (process_find_from_connection world s a)
    unfolding process_find_from_connection connection_get_refpacket
    find_from_connection-Every s a every =
        Yields-bind Q (λ (s', place). Every Q s'.store) (deref s.store a) _
          (deref-Every Q s.store every a)
          λ c q.
            let every' = assign-Every Q s.store every a _ (kept.keyed s.local_addresses c q) in
            Yields-bind _ (λ (s', place). Every Q s'.store) (find_inode world _ _) _
              (find_inode-store _ _)
              λ (s₁, inode) e₁.
                Yields-bind {A = State × Option ℕ} {B = State × ℕ}
                  (λ (s₂, found). s₂.store ≡ s₁.store) (λ (s', place). Every Q s'.store) _ _
                  (known s₁ inode)
                  λ (s₂, found) e₂. subst (Every Q) (sym (place-store s₂ _ found ∙ e₂ ∙ e₁)) every'
      where
        known :
            (s₁ : State) (inode : Option ℕ)
            → Yields {A = State × Option ℕ}
                (λ (s₂, found). s₂.store ≡ s₁.store)
                (elim inode [ none ↦ ok (s₁, none) | some i ↦ get_process_from_inode world s₁ i ])
        known s₁ none = refl
        known s₁ (some i) = get_process-store s₁ i
