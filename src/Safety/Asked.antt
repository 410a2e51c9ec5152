-- ===== src/Safety/Asked.antt =====
-- nfs3/nfsprocdef.go and nfs3/allunix.go: the calls of a procedure are those that its arguments ask
-- for.
use gonfs.Common.{ℕ, Text, ◌≡◌, false, true, some, ◌≤◌}
use gonfs.Common.Int.{int64}
use gonfs.Os.{
  Os, Call, lstat, open_read, open_file, close, readdir, read_at, write_at, sync, mkdir, rename,
  link, symlink, unlink, rmdir, readlink, truncate, chmod, chtimes, statfs, geteuid, getegid,
}
use gonfs.Types.Attr.{NfsFh3}
use gonfs.Types.Operands.{Diropargs3}
use gonfs.Prog.{Prog, ◌>>=◌}
use gonfs.Prog.Run.{Handles}
use gonfs.Prog.Makes.{Makes}
use gonfs.Backend.Base.{Backend, uint64, join}
use gonfs.Svc.Stubs.{Arguments}
use gonfs.Safety.Changing
use gonfs.Safety.Reading

-- The map holds the path for the handle.
abbrev pub IsAt : Handles → NfsFh3 → Text → Type 0
IsAt m fh p = (h : ℕ) × (uint64 fh.bytes ≡ some h) × (m h ≡ some p)

-- The path is that of the name, in the directory that the map holds for the handle.
abbrev pub IsIn : Handles → Diropargs3 → Text → Type 0
IsIn m place p = (d : Text) × IsAt m place.dir d × (p ≡ join d place.name)

abbrev Never : Type 0
Never = false ≡ true

-- What the arguments of a procedure ask for, call by call.
abbrev pub IsAsked : Handles → Arguments → Call → Type 0
IsAsked m (Arguments.read a) (open_read p) = IsAt m a.file p
IsAsked m (Arguments.readdir a) (open_read p) = IsAt m a.dir p
IsAsked m (Arguments.read a) (read_at fd n o) = (n ≤ a.count) × (o ≡ int64 a.offset)
IsAsked m (Arguments.readlink a) (readlink p) = IsAt m a.symlink p
IsAsked m (Arguments.fsstat a) (statfs p) = IsAt m a.fsroot p
IsAsked m (Arguments.write a) (open_file p fs n) = IsAt m a.file p
IsAsked m (Arguments.write a) (write_at fd d o) = (d ≡ a.bytes) × (o ≡ int64 a.offset)
IsAsked m (Arguments.write a) (sync fd) = Unit
IsAsked m (Arguments.create a) (open_file p fs n) = IsIn m a.place p
IsAsked m (Arguments.mkdir a) (mkdir p n) = IsIn m a.place p
IsAsked m (Arguments.symlink a) (symlink d p) = (d ≡ a.symlink.symlink_data) × IsIn m a.place p
IsAsked m (Arguments.remove a) (unlink p) = IsIn m a.object p
IsAsked m (Arguments.rmdir a) (rmdir p) = IsIn m a.object p
IsAsked m (Arguments.rename a) (rename p q) = IsIn m a.from p × IsIn m a.to q
IsAsked m (Arguments.link a) (link p q) = IsAt m a.file p × IsIn m a.link q
IsAsked m (Arguments.setattr a) (truncate p n) =
    IsAt m a.object p × (n ≡ int64 a.new_attributes.size.size)
IsAsked m (Arguments.setattr a) (chmod p n) = IsAt m a.object p × (n ≡ a.new_attributes.mode.mode)
IsAsked m (Arguments.setattr a) (chtimes p x y) = IsAt m a.object p
IsAsked m a (lstat p) = Unit
IsAsked m a (close fd) = Unit
IsAsked m a (readdir fd) = Unit
IsAsked m a geteuid = Unit
IsAsked m a getegid = Unit
IsAsked m a c = Never
