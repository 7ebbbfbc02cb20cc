-- ===== src/Inodeproc.antt =====
-- network-analyzer/na-inodeproc.h and na-inodeproc.c: the table from inodes to programs, filled from
-- /proc. The static table is an argument, and so is what a reading of /proc finds.
pub mod Scan
use gnome_usage.Base.{
  ℕ, ◌%◌, ◌^◌, Bool, true, false, ◌&&◌, Option, none, some, List, [], ◌∷◌, ◌==◌, if◌then◌else◌,
  nat_eq,
}
use gnome_usage.Base.Text.{Text, text}
use gnome_usage.Base.Assoc.{insert, lookup}
use gnome_usage.Outcome.{Outcome, ok, fault, aborted, ◌>>=◌}
use gnome_usage.Scanf.{is_digit, strtoul, strtol}

-- `pid` is an `int`, kept as its bit pattern; a `name` of `none` is NULL.
pub record Program : Type 0 where
  pub inode : ℕ
  pub pid : ℕ
  pub name : Option Text

abbrev pub InodeprocTable : Type 0
InodeprocTable = List (ℕ × Program)

-- An entry of /proc/<pid>/fd: whether it is a link, and its target, if it can be read.
pub record FdEntry : Type 0 where
  pub is_link : Bool
  pub target : Option Text

-- An entry of /proc, with what its `cmdline` and its `fd` hold, if they can be read.
pub record ProcEntry : Type 0 where
  pub is_dir : Bool
  pub d_name : Text
  pub cmdline : Option Text
  pub fds : Option (List FdEntry)

unfoldable pub is_number : Text → Bool
is_number [] = true
is_number (c ∷ s) = if is_digit c then is_number s else false

-- `/proc/<pid>/cmdline`, or NULL
unfoldable pub getprogname : ProcEntry → Option Text
getprogname entry = entry.cmdline

-- What follows a prefix, if the text begins with it.
unfoldable pub after_prefix : Text → Text → Option Text
after_prefix [] s = some s
after_prefix (p ∷ ps) [] = none
after_prefix (p ∷ ps) (c ∷ s) = if c == p then after_prefix ps s else none

unfoldable pub get_info_by_linkname : InodeprocTable → ProcEntry → Text → InodeprocTable
get_info_by_linkname table entry linkname = elim (after_prefix (text "socket:[") linkname) [
  | none ↦ table
  | some ptr ↦
      let inode = strtoul ptr in
      let newnode : Program = record {
        inode = inode;
        pid = strtol entry.d_name % 2 ^ 32;
        name = getprogname entry;
      } in
      insert inode newnode table
]

unfoldable pub get_info_by_fd : InodeprocTable → ProcEntry → FdEntry → InodeprocTable
get_info_by_fd table entry fd =
    if fd.is_link
    then elim fd.target [ none ↦ table | some linkname ↦ get_info_by_linkname table entry linkname ]
    else table

-- The walk through /proc/<pid>/fd.
unfoldable pub fd_loop : InodeprocTable → ProcEntry → List FdEntry → InodeprocTable
fd_loop table entry [] = table
fd_loop table entry (fd ∷ rest) = fd_loop (get_info_by_fd table entry fd) entry rest

unfoldable pub get_info_for_pid : InodeprocTable → ProcEntry → InodeprocTable
get_info_for_pid table entry = elim entry.fds [ none ↦ table | some fds ↦ fd_loop table entry fds ]

-- The walk through /proc.
unfoldable pub proc_loop : InodeprocTable → List ProcEntry → InodeprocTable
proc_loop table [] = table
proc_loop table (entry ∷ rest) =
    proc_loop
      (if entry.is_dir && is_number entry.d_name then get_info_for_pid table entry else table) rest

unfoldable pub inodeproc_table_refresh :
    InodeprocTable → Option (List ProcEntry) → Outcome InodeprocTable
inodeproc_table_refresh table none = aborted
inodeproc_table_refresh table (some entries) = ok (proc_loop table entries)

-- The refresh is made only if the inode is not there.
unfoldable pub inodeproc_table_find_pid :
    InodeprocTable → ℕ → Option (List ProcEntry) → Outcome (InodeprocTable × Option Program)
inodeproc_table_find_pid table inode proc = elim (lookup inode table) [
  | some node ↦ ok (table, some node)
  | none ↦ do table' ← inodeproc_table_refresh table proc; ok (table', lookup inode table')
]
