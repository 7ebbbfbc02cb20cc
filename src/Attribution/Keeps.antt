-- ===== src/Attribution/Keeps.antt =====
-- The invariant of Process.Ownership under `na_process_find_from_connection`.
use gnome_usage.Base.{
  ℕ, ◌<◌, ◌≡◌, refl, ap, ◌∙◌, true, false, ◌||◌, Option, none, some, List, [], ◌∷◌, ◌++◌, ◌==◌,
  arith, inl, inr, Option-cases, length, length-append, nat_eq,
}
use gnome_usage.Base.Assoc.{lookup}
use gnome_usage.Base.Text.{Text, text_eq}
use gnome_usage.Base.Members.{has}
use gnome_usage.Outcome.{ok, Returns, Returns-bind, Returns-mono}
use gnome_usage.Inodeproc.{
  ProcEntry, InodeprocTable, inodeproc_table_refresh, inodeproc_table_find_pid,
}
use gnome_usage.Packet.{packet_get_hashstring}
use gnome_usage.Connection.{Connection, connection_get_refpacket}
use gnome_usage.Packet.{Packet}
use gnome_usage.Packet.Flow.{get_hashstring-rest}
use gnome_usage.Store.{Store, deref, assign}
use gnome_usage.Store.WellFormed.{cells-some, assign-IsStore, connections-assign}
use gnome_usage.Process.{Process, State, World, process_new, find_process_from_program}
use gnome_usage.Process.Ownership.{owned, Owns}
use gnome_usage.Attribution.Held.{owned-new, has-attach, attach-IsNodup, find_process-lt}
use gnome_usage.Attribution.{
  attach, get_process_from_inode, find_inode, place_or_new, process_find_from_connection,
}

-- /proc can be listed at every moment; where it cannot, the program aborts.
abbrev pub IsReadable : World → Type 0
IsReadable world = (n : ℕ) → (entries : List ProcEntry) × ((world.proc n).entries ≡ some entries)

-- The searches for the inode and for its process leave the connections and what the processes hold.
record Searches (s s' : State) (place : Option ℕ) : Type 0 where
  store : s'.store ≡ s.store
  same : owned s'.processes ≡ owned s.processes
  within : (i : ℕ) → place ≡ some i → i < length s'.processes

lt-new :
    (ps : List Process) (p : Process) (i : ℕ)
    → some (length ps) ≡ some i
    → i < length (ps ++ p ∷ [])
lt-new ps p i h = ground (arith, length-append ps (p ∷ []))

-- The connection keeps its direction and its key in its reference packet, of which nothing else
-- changes, and no other connection changes.
pub record Keyed (s s' : Store) (a : ℕ) : Type 0 where
  pub before : Connection
  pub reference : Packet
  pub here : s.cells a ≡ some before
  pub rest_kept :
      reference
      ≡ record (before.refpacket) { dir = reference.dir; hashstring = reference.hashstring }
  pub keyed : s' ≡ assign s a (record before { refpacket = reference })

-- The connection is added to the processes' connections, and nothing else changes in what is held
-- or listed.
abbrev pub Attached : State → ℕ → State → Type 0
Attached s a s' =
    Owns s'.store s'.processes
    × (s'.store.connections ≡ s.store.connections)
    × ((b : ℕ) → has b (owned s'.processes) ≡ (b == a || has b (owned s.processes)))
    × Keyed s.store s'.store a

process_new_lem : (name : Option Text) → (process_new name).connections ≡ []
unfolding process_new
process_new_lem name = refl

module _ (world : World) (readable : IsReadable world) where
  find_inode-Searches :
      (s : State) (key : Text)
      → Returns (λ (s', inode). Searches s s' none) (find_inode world s key)
  unfolding find_inode inodeproc_table_refresh
  find_inode-Searches s key = elim (Option-cases (lookup key s.conninode)) [
    | inl e ↦
        let (entries, f) = readable s.reads in
        rw (e, Returns) (rw f (record { store = refl; same = refl; within = λ i h. cc }))
    | inr (inode, e) ↦ rw (e, Returns) (record { store = refl; same = refl; within = λ i h. cc })
  ]

  find_pid-Returns :
      (table : InodeprocTable) (inode n : ℕ)
      → Returns (λ r. Unit {0}) (inodeproc_table_find_pid table inode (world.proc n).entries)
  unfolding inodeproc_table_find_pid inodeproc_table_refresh
  find_pid-Returns table inode n =
      let (entries, f) = readable n in
      elim (Option-cases (lookup inode table)) [
        | inl e ↦ rw (e, Returns) (rw f tt)
        | inr (node, e) ↦ rw (e, Returns) tt
      ]

  get_process-Searches :
      (s : State) (inode : ℕ)
      → Returns (λ (s', place). Searches s s' place) (get_process_from_inode world s inode)
  unfolding get_process_from_inode
  get_process-Searches s inode =
      Returns-bind _ (λ (s', place). Searches s s' place)
        (inodeproc_table_find_pid s.inodeproc inode (world.proc s.reads).entries) _
        (find_pid-Returns s.inodeproc inode s.reads)
        λ (table, found) u. elim (Option-cases found) [
          | inl e ↦ rw (e, Returns) (record { store = refl; same = refl; within = λ i h. cc })
          | inr (node, e) ↦
              rw (e, Returns)
                (elim (Option-cases (find_process_from_program s.processes node)) [
                  | inl new ↦
                      rw (new, Returns)
                        (record {
                          store = refl;
                          same =
                              owned-new s.processes _ (ground (arith, process_new_lem node.name));
                          within = λ i h. lt-new s.processes _ i h;
                        })
                  | inr (i, old) ↦
                      rw (old, Returns)
                        (record {
                          store = refl;
                          same = refl;
                          within = λ j h. ground (arith, find_process-lt s.processes node i old);
                        })
                ])
        ]

  -- The process that the connection is added to is there.
  place_or_new-within :
      (s s' : State) (key : Text) (found : Option ℕ)
      → Searches s s' found
      → let (placed, place) = place_or_new world s' key found in Searches s placed (some place)
  unfolding place_or_new
  place_or_new-within s s' key none r = record {
    store = r.store;
    same = owned-new s'.processes _ (process_new_lem (some key)) ∙ r.same;
    within = λ i h. lt-new s'.processes _ i h;
  }
  place_or_new-within s s' key (some place) r = r

  Searches-trans :
      {s s' s'' : State} {place : Option ℕ}
      → Searches s s' none
      → Searches s' s'' place
      → Searches s s'' place
  Searches-trans r q = record {
    store = q.store ∙ r.store;
    same = q.same ∙ r.same;
    within = q.within;
  }

  -- The look-up of the inode and of its process, one behind the other.
  search-Searches :
      (s s' : State) (inode : Option ℕ)
      → Searches s s' none
      → Returns
          (λ (s'', place). Searches s s'' place)
          (elim inode [ none ↦ ok (s', none) | some i ↦ get_process_from_inode world s' i ])
  search-Searches s s' none r = r
  search-Searches s s' (some i) r =
      Returns-mono _ _ (get_process_from_inode world s' i) (get_process-Searches s' i)
        λ (s'', place) q. Searches-trans r q

  attach-Attached :
      (s s' : State) (a place : ℕ) (c : Connection)
      → Owns s.store s.processes
      → has a s.store.connections ≡ true
      → has a (owned s.processes) ≡ false
      → (before : Connection) (r : Packet) → s.store.cells a ≡ some before
      → r ≡ record (before.refpacket) { dir = r.dir; hashstring = r.hashstring }
      → c ≡ record before { refpacket = r }
      → Searches (record s { store = assign s.store a c }) s' (some place)
      → Attached s a (record s' { processes = attach place a s'.processes })
  attach-Attached s s' a place c o listed out before ref here kept named r = (
    record {
      store = rw r.store (assign-IsStore o.store a c listed);
      distinct = attach-IsNodup place a s'.processes within (rw r.same o.distinct) (rw r.same out);
      backed = λ b m. ground (arith, held b, o.backed b, ap (has b) same_list);
    },
    same_list,
    held,
    record {
      before = before;
      reference = ref;
      here = here;
      rest_kept = kept;
      keyed = r.store ∙ ap (assign s.store a) named;
    },
  )
    where
      within : place < length s'.processes
      within = r.within place refl

      same_list : s'.store.connections ≡ s.store.connections
      same_list = ap (λ (t : Store). t.connections) r.store ∙ connections-assign s.store a c

      held :
          (b : ℕ)
          → has b (owned (attach place a s'.processes)) ≡ (b == a || has b (owned s.processes))
      held b = has-attach place a b s'.processes within ∙ ap (λ l. b == a || has b l) r.same

  -- Where /proc can be listed and the processes hold distinct connections, all listed and allocated,
  -- the search for the process of a listed connection that no process holds ends; then that
  -- connection is held by one process, what was held before is still held, nothing else is, the list
  -- of all connections is unchanged, and so is each connection, but for the direction and the key
  -- that the new one keeps in its reference packet.
  pub find_from_connection-Attached :
      (s : State) (a : ℕ)
      → Owns s.store s.processes
      → has a s.store.connections ≡ true
      → has a (owned s.processes) ≡ false
      → Returns (λ (s', place). Attached s a s') (process_find_from_connection world s a)
  unfolding process_find_from_connection deref connection_get_refpacket
  find_from_connection-Attached s a o listed out =
      let (c, e) = cells-some o.store a listed in
      rw (deref, e)
        (Returns-bind _ (λ (s', place). Attached s a s') (find_inode world (keyed c) (key c)) _
          (find_inode-Searches (keyed c) (key c))
          λ (searched, inode) r.
            Returns-bind _ (λ (s', place). Attached s a s') _ _
              (search-Searches (keyed c) searched inode r)
              λ (known, found) q.
                attach-Attached s _ a _ _ o listed out c _ e
                  (get_hashstring-rest world.ntop s.local_addresses (connection_get_refpacket c))
                  refl (place_or_new-within (keyed c) known (key c) found q))
    where
      key : Connection → Text
      key c = (packet_get_hashstring world.ntop s.local_addresses (connection_get_refpacket c)).1

      keyed : Connection → State
      keyed c = record s {
        store = assign s.store a (record c {
          refpacket =
              (packet_get_hashstring world.ntop s.local_addresses (connection_get_refpacket c)).0;
        });
      }
