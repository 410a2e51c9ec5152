-- ===== src/Main/Table.antt =====
-- main.go and nfs3/nfstypdef.go: the entries and methods of the server table.
use gonfs.Common.{arith, text_eq}
use gonfs.Oncrpc.Calls.{IsDistinct}
use gonfs.Oncrpc.Reports.{HasMethods}
use gonfs.Main.Startup.{proc_table_server}

pub proc_table_server-IsDistinct : IsDistinct proc_table_server
proc_table_server-IsDistinct = ((λ h. absurd (omega (arith, h)), tt), (tt, tt))

pub proc_table_server-HasMethods : HasMethods proc_table_server
unfolding text_eq
proc_table_server-HasMethods = search
