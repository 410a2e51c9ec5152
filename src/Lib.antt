-- ===== src/Lib.antt =====
-- gonfs, an NFS version 3 server in Go.
--
-- A client's request comes over oncrpc, is dispatched by net/rpc to a procedure of
-- nfs3/nfsprocdef.go, and ends in a method of the backend in nfs3/allunix.go. The backend keeps one
-- shared state, the map from 64-bit file handles to path names, and does everything else by calls of
-- the packages os and syscall.
--
--   * Common: booleans, numbers, lists and byte strings. A Go string or byte slice is a list of
--     numbers below 256 (Text); a uint64 or uint32 is a number whose wrap-around is written out.
--   * Types: the statuses, attributes, arguments and replies of nfs3/nfstypdef.go.
--   * Os: the calls that the source makes of os and syscall, as data. What they answer is a
--     parameter: theorems hold for every record Os, or for every answer.
--   * Prog: a procedure as a tree of accesses to the map (each is one critical section of
--     fhandleRWMutex), calls, panics (crash) and log.Fatalf (exit). Prog/Run runs one procedure
--     alone. Prog/Respects says that whatever the answers, the steps of a tree keep to a policy.
--     Prog/Ends says how a tree that runs alone ends; so do Prog/Settled, where each call has one
--     answer, and Prog/Machine, where the calls change a part of the world in a known way.
--   * Backend: the methods of nfs3/allunix.go, one file for each group: Base (makeFHandle,
--     getFileAttrFromPath and the steps that the methods share), Errors, Mount, Query (GetFileAttr,
--     GetFileSysInfo, GetFileSystemAttr, GetPathConf, Access, ReadLink, ReadDirPlus), Lookup,
--     NewObject (Mkdir, Create, SymLink), Remove (Remove, Rmdir), Setattr, Io (Read, Write, Commit),
--     Rename, Link, ReadDir.
--   * Svc: the procedures of nfs3/nfsprocdef.go as one function from requests to programs. A request
--     is what a procedure reads of its arguments, which Svc/Stubs takes from the argument structs
--     (Types/Operands).
--   * Oncrpc/Record: the records of oncrpc/record.go, over a Writer for the connection that is
--     written to and the bytes still to come for the one that is read. The capacity that
--     bytes.Buffer takes on is a parameter. The loops have fuel: one more than the bytes, which every
--     turn of the reader shortens by four at least. The bytes are a list, so a connection that never
--     ends, with fragments that are empty and not the last, is not a run of the model. Framing,
--     Writing and Reading are about them.
--   * Oncrpc/Message, Fault, ServerCodec, Response, ClientCodec: the messages of oncrpc/rpctypes.go,
--     ReadRequestHeader and ReadRequestBody, WriteResponse, and the client of oncrpc/clientcodec.go.
--     xdr.Marshal and xdr.Unmarshal are parameters; Message/Selected says what the tags of a union
--     leave of a message. Dispatch, Verdicts, Reports, Calls, Unoffered and Wire are about them.
--   * Portmapper: portmapper/portmapClient.go, over net/rpc as a parameter (Rpcbind).
--   * Main: main.go, the steps up to the loop (Startup), the loop (Accept), and the methods that
--     the server table leads to (Methods). Ready, Serving, Admitted and Table are about them.
--     net/rpc has no model: nothing is said of a call from the client to the method and back.
--   * Replies: what the backend's replies say and what the handle map then holds: Errors, Handles,
--     Named (Lookup), Made (Mkdir, Create, SymLink), Mounted, Gone, ReadOnly, Stale, Access, Paging and
--     PageSize (ReadDir), Contents (Read), Written (Write), Honest. Directory, Advance, Listing
--     and TooSmall are about a client that reads a directory page by page, with fuel that bounds its
--     Readdirs; Usable and Resolve about one that goes on with the handles it was given; Filed,
--     Persisted and Reread about one that reads what it wrote; Silly about Rename to a ".nfs" name.
--   * Safety: what every request does, alone and interleaved with others. Permitted, Methods, Open,
--     Pairs, Serve and Interleave are about a policy that every request keeps to; Makes, Changing,
--     Reading and Asked about the calls that the arguments of a procedure lead to, which Prog/Makes
--     takes from a run.
--   * Liveness: panics. Calm is about programs, with what package os documents of its errors; Open,
--     Methods and Serve about the requests, Interleave about several at once.
--   * Tests: the theorems at concrete inputs.
--
-- The backend needs no fuel: its loops are over lists, and a procedure's tree is finite.
-- Not modelled: the xdr directory, a copy of another project's library; log.Printf and the texts
-- printed; the parsing of the command line; sockets and net/rpc, of which only what the source uses
-- is a parameter; hash/fnv, which is a field of the backend.
pub mod Backend
pub mod Common
pub mod Liveness
pub mod Main
pub mod Oncrpc
pub mod Os
pub mod Portmapper
pub mod Prog
pub mod Replies
pub mod Safety
pub mod Svc
pub mod Tests
pub mod Types
