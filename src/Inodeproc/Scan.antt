-- ===== src/Inodeproc/Scan.antt =====
-- What a walk through /proc enters into the table of na-inodeproc.c.
use gnome_usage.Base.{
  ℕ, ◌%◌, ◌^◌, ◌≡◌, refl, sym, ap, ◌∙◌, ◌&&◌, Option, none, some, List, [], ◌∷◌, ◌++◌, ◌==◌, arith,
  if◌then◌else◌, inl, inr, Bool-cases, Option-cases, nat_eq,
}
use gnome_usage.Base.Text.{Text, text}
use gnome_usage.Base.Assoc.{lookup, lookup-insert}
use gnome_usage.Scanf.{strtoul, strtol}
use gnome_usage.Inodeproc.{
  Program, InodeprocTable, FdEntry, ProcEntry, is_number, getprogname, after_prefix,
  get_info_by_linkname, get_info_by_fd, fd_loop, get_info_for_pid, proc_loop,
}

-- The program that a link target names, and the one that a descriptor shows, if it is a readable
-- link to a socket.
abbrev link_socket : ProcEntry → Option Text → Option Program
link_socket entry none = none
link_socket entry (some ptr) =
    some (record { inode = strtoul ptr; pid = strtol entry.d_name % 2 ^ 32; name = entry.cmdline })

abbrev target_socket : ProcEntry → Option Text → Option Program
target_socket entry none = none
target_socket entry (some linkname) = link_socket entry (after_prefix (text "socket:[") linkname)

unfoldable pub fd_socket : ProcEntry → FdEntry → Option Program
fd_socket entry fd = if fd.is_link then target_socket entry fd.target else none

-- The sockets that a listing shows, in the order of the walk.
unfoldable pub fds_sockets : ProcEntry → List FdEntry → List Program
fds_sockets entry [] = []
fds_sockets entry (fd ∷ rest) = elim (fd_socket entry fd) [
  | none ↦ fds_sockets entry rest
  | some p ↦ p ∷ fds_sockets entry rest
]

unfoldable pub entry_sockets : ProcEntry → Option (List FdEntry) → List Program
unfolding fds_sockets
entry_sockets entry none = []
entry_sockets entry (some fds) = fds_sockets entry fds

unfoldable pub sockets : List ProcEntry → List Program
sockets [] = []
sockets (e ∷ rest) =
    (if e.is_dir && is_number e.d_name then entry_sockets e e.fds else []) ++ sockets rest

-- The last program of the list with the inode, or else the one given.
unfoldable pub last_with : ℕ → List Program → Option Program → Option Program
last_with i [] old = old
last_with i (p ∷ ps) old = last_with i ps (if p.inode == i then some p else old)

last_with-append :
    (i : ℕ) (ps qs : List Program) (old : Option Program)
    → last_with i (ps ++ qs) old ≡ last_with i qs (last_with i ps old)
unfolding last_with
last_with-append i [] qs old = refl
last_with-append i (p ∷ ps) qs old = last_with-append i ps qs _

-- The table with one more program.
abbrev with_program : ℕ → Option Program → Option Program → Option Program
with_program i none old = old
with_program i (some p) old = if p.inode == i then some p else old

lookup-linkname :
    (i : ℕ) (t : InodeprocTable) (e : ProcEntry) (linkname : Text)
    → lookup i (get_info_by_linkname t e linkname)
      ≡ with_program i (target_socket e (some linkname)) (lookup i t)
unfolding get_info_by_linkname getprogname
lookup-linkname i t e linkname = elim (Option-cases (after_prefix (text "socket:[") linkname)) [
  | inl none_such ↦ rw (none_such, get_info_by_linkname) refl
  | inr (ptr, found) ↦ rw (found, get_info_by_linkname) (lookup-insert (strtoul ptr) i _ t)
]

lookup-fd :
    (i : ℕ) (t : InodeprocTable) (e : ProcEntry) (fd : FdEntry)
    → lookup i (get_info_by_fd t e fd) ≡ with_program i (fd_socket e fd) (lookup i t)
unfolding get_info_by_fd fd_socket
lookup-fd i t e fd = elim (Bool-cases fd.is_link) [
  | inl link ↦ rw link (elim (Option-cases fd.target) [
    | inl unread ↦ rw unread refl
    | inr (linkname, read) ↦ rw read (lookup-linkname i t e linkname)
  ])
  | inr other ↦ rw other refl
]

lookup-fd_loop :
    (i : ℕ) (e : ProcEntry) (fds : List FdEntry) (t : InodeprocTable)
    → lookup i (fd_loop t e fds) ≡ last_with i (fds_sockets e fds) (lookup i t)
unfolding fd_loop fds_sockets last_with
lookup-fd_loop i e [] t = refl
lookup-fd_loop i e (fd ∷ rest) t =
    ground (arith, lookup-fd_loop i e rest (get_info_by_fd t e fd), lookup-fd i t e fd)

lookup-get_info_for_pid :
    (i : ℕ) (e : ProcEntry) (t : InodeprocTable)
    → lookup i (get_info_for_pid t e) ≡ last_with i (entry_sockets e e.fds) (lookup i t)
unfolding get_info_for_pid entry_sockets last_with
lookup-get_info_for_pid i e t = elim (Option-cases e.fds) [
  | inl closed ↦ ground arith
  | inr (fds, opened) ↦ ground (arith, lookup-fd_loop i e fds t)
]

-- After a walk through a listing of /proc, an inode belongs to the last process directory and
-- descriptor that shows a socket with that inode, under the directory's number and command line, and
-- to whom it belonged before if no descriptor shows it.
pub lookup-proc_loop :
    (i : ℕ) (entries : List ProcEntry) (t : InodeprocTable)
    → lookup i (proc_loop t entries) ≡ last_with i (sockets entries) (lookup i t)
unfolding proc_loop sockets last_with
lookup-proc_loop i [] t = refl
lookup-proc_loop i (e ∷ rest) t = elim (Bool-cases (e.is_dir && is_number e.d_name)) [
  | inl yes_dir ↦ rw yes_dir (
      lookup-proc_loop i rest (get_info_for_pid t e)
      ∙ ap (last_with i (sockets rest)) (lookup-get_info_for_pid i e t)
      ∙ sym (last_with-append i (entry_sockets e e.fds) (sockets rest) (lookup i t)))
  | inr no_dir ↦ rw no_dir (lookup-proc_loop i rest t)
]
