-- ===== src/Tests/Asked.antt =====
-- A Rename of the directory "d" of `Fixture` to "g".
use gonfs.Common.{Text, codes}
use gonfs.Svc.Stubs.{Arguments}
use gonfs.Types.Operands.{Diropargs3}
use gonfs.Backend.Base.{put_uint64}

abbrev place : Text → Diropargs3
place name = record { dir = record { bytes = put_uint64 5 }; name = name }

abbrev renaming : Arguments
renaming = Arguments.rename (record { from = place (codes "d"); to = place (codes "g") })
