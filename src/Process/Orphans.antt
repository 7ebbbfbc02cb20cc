-- ===== src/Process/Orphans.antt =====
-- What happens to the connections of a process that na_process_info_get_all deletes.
use gnome_usage.Base.{ℕ, ◌≡◌, true, false, List, ◌∷◌, arith, inl, inr, Bool-cases}
use gnome_usage.Base.Members.{has}
use gnome_usage.Outcome.{ok, Returns, Returns-mono}
use gnome_usage.Packet.{Timeval}
use gnome_usage.Store.{Store}
use gnome_usage.Process.{Process, info_loop, process_get_last_packet_time, is_timed_out}
use gnome_usage.Process.Ownership.{
  owned, Owns, Reported, Owns-tail, Owns-head, apart, info_loop-Reported,
}

-- A process at the head of the list that has timed out is deleted with its connections left behind:
-- where the processes hold distinct connections, all listed and allocated, each connection that it
-- held is still listed after the loop, and no process holds it any more.
pub info_loop_orphans :
    (t : Timeval) (s : Store) (p : Process) (ps : List Process) (last a : ℕ)
    → Owns s (p ∷ ps)
    → process_get_last_packet_time s p ≡ ok last
    → is_timed_out last t ≡ true
    → has a p.connections ≡ true
    → Returns
        (λ (s', ps', infos). (has a s'.connections ≡ true) × (has a (owned ps') ≡ false))
        (info_loop t s (p ∷ ps))
unfolding info_loop
info_loop_orphans t s p ps last a o e dead m =
    rw (e, dead)
      (Returns-mono _ _ (info_loop t s ps) (info_loop-Reported t s ps (Owns-tail p ps o))
        λ (s', ps', infos) r.
          let out = apart p ps o a m in
          (ground (arith, r.others a, Owns-head p ps o a m), not_held r out))
  where
    not_held :
        {s' : Store} {ps' : List Process}
        → Reported s s' ps ps'
        → has a (owned ps) ≡ false
        → has a (owned ps') ≡ false
    not_held {ps'} r out = elim (Bool-cases (has a (owned ps'))) [
      | inl h ↦ ground (arith, r.sub a h)
      | inr h ↦ h
    ]
