-- ===== src/Oncrpc/Reports.antt =====
-- oncrpc: what a client's checkReplyForErr says to the reply of WriteResponse.
use gonfs.Common.{
  ℕ, ◌-◌, ◌<◌, ◌≤◌, ◌≡◌, ◌≢◌, refl, ap, ◌∙◌, false, Text, List, [], ◌∷◌, Option, none, some, length,
  get_elem?, All, All-get_elem?, text_eq, arith,
}
use gonfs.Oncrpc.Fault
use gonfs.Oncrpc.Message.{ProcEntry, CallBody, ReplyBody}
use gonfs.Oncrpc.Message.AcceptStat
use gonfs.Oncrpc.Message.Selected
use gonfs.Oncrpc.Dispatch.{IsFirst, IsAbsent}
use gonfs.Oncrpc.Verdicts.{IsServed, Verdict, select_method-Verdict, select_method-index}
use gonfs.Oncrpc.ServerCodec.{select_method}
use gonfs.Oncrpc.Response.{
  reply_body, reply_message, success_reply, rpc_mismatch, auth_error, accept, program_range,
  version_range,
}
use gonfs.Oncrpc.ClientCodec.{
  ReplyError, prog_unavail, prog_mismatch, proc_unavail, check_reply_for_err,
}

-- The service method is none that stands for an error.
abbrev pub IsMethod : Text → Type 0
IsMethod service =
    All (λ fault. text_eq service fault ≡ false)
      (Fault.prog_unavail ∷ Fault.prog_mismatch ∷ Fault.proc_unavail ∷ Fault.garbage_args
        ∷ Fault.system_err ∷ Fault.rpc_mismatch ∷ Fault.auth_error ∷ [])

abbrev pub HasMethods : List ProcEntry → Type 0
HasMethods table = All (λ e. All IsMethod e.proc_list) table

-- What the client is told of a call.
pub data Reported (table : List ProcEntry) (call : CallBody) : Option ReplyError → Type 0 where
  other_rpc : call.rpc_version ≢ 2 → Reported table call none
  other_flavor : call.rpc_version ≡ 2 → 1 < call.cred.flavor → Reported table call none
  absent :
      {first last : ProcEntry}
      → IsServed call
      → IsAbsent call.program table
      → get_elem? table 0 ≡ some first
      → get_elem? table (length table - 1) ≡ some last
      → Reported table call (some (prog_unavail first.program last.program))
  other_version :
      {i : ℕ} {e : ProcEntry}
      → IsServed call
      → IsFirst call.program table i e
      → call.version ≢ e.version
      → Reported table call (some (prog_mismatch e.version e.version))
  out_of_range :
      {i : ℕ} {e : ProcEntry}
      → IsServed call
      → IsFirst call.program table i e
      → call.version ≡ e.version
      → length e.proc_list ≤ call.procedure
      → Reported table call (some proc_unavail)
  offered :
      {i : ℕ} {e : ProcEntry} {service : Text}
      → IsServed call
      → IsFirst call.program table i e
      → call.version ≡ e.version
      → get_elem? e.proc_list call.procedure ≡ some service
      → Reported table call none

pub reply_body-method :
    (table : List ProcEntry) (current : Option ℕ) (service : Text)
    → IsMethod service
    → reply_body table current service ≡ some success_reply
unfolding reply_body
reply_body-method table current service (a, (b, (c, (d, (e, (f, (g, _))))))) =
    rw (a, b, c, d, e, f, g) refl

-- The reply has a body, and the client's check of the message says so.
abbrev Told : List ProcEntry → CallBody → ℕ → Option ReplyBody → Type 0
Told table call seq found =
    (body : ReplyBody) × (found ≡ some body)
    × Reported table call (check_reply_for_err (Selected.message (reply_message seq body)))

last-found {ℓ} :
    {A : Type ℓ} (x : A) (xs : List A) → (z : A) × (get_elem? (x ∷ xs) (length xs) ≡ some z)
last-found x [] = (x, refl)
last-found x (y ∷ xs) = last-found y xs

module _ (head : ProcEntry) (tail : List ProcEntry) (call : CallBody) (current : Option ℕ)
    (seq : ℕ) where
  abbrev table : List ProcEntry
  table = head ∷ tail

  Told-absent :
      IsServed call
      → IsAbsent call.program table
      → (c : Option ℕ) → Told table call seq (reply_body table c Fault.prog_unavail)
  unfolding reply_body check_reply_for_err text_eq
  Told-absent served none_of c =
      (program_range head ends.0, rw (at_end) refl, absent served none_of refl at_end)
    where
      ends : (z : ProcEntry) × (get_elem? table (length tail) ≡ some z)
      ends = last-found head tail

      at_end : get_elem? table (length table - 1) ≡ some ends.0
      at_end = ap (λ n. get_elem? table n) (omega arith) ∙ ends.1

  Told-version :
      (i : ℕ) (e : ProcEntry)
      → IsServed call
      → IsFirst call.program table i e
      → call.version ≢ e.version
      → Told table call seq
          (reply_body table (select_method table call current).1 Fault.prog_mismatch)
  unfolding reply_body check_reply_for_err text_eq
  Told-version i e served first ne = (
    version_range e,
    rw (select_method-index table call current i e served first, first.0) refl,
    other_version served first ne,
  )

  told :
      (service : Text)
      → HasMethods table
      → Verdict table call service
      → Told table call seq (reply_body table (select_method table call current).1 service)
  unfolding reply_body check_reply_for_err text_eq
  told service methods (Verdict.other_rpc ne) = (rpc_mismatch, refl, other_rpc ne)
  told service methods (Verdict.other_flavor v f) = (auth_error, refl, other_flavor v f)
  told service methods (Verdict.absent served none_of) =
      Told-absent served none_of (select_method table call current).1
  told service methods (Verdict.other_version {i} {e} served first ne) =
      Told-version i e served first ne
  told service methods (Verdict.out_of_range served first v long) =
      (accept AcceptStat.proc_unavail, refl, out_of_range served first v long)
  told service methods (Verdict.offered {i} {e} served first v at) = (
    success_reply,
    reply_body-method table _ service (
        All-get_elem? IsMethod e.proc_list call.procedure service
          (All-get_elem? (λ f. All IsMethod f.proc_list) table i e methods first.0) at),
    offered served first v at,
  )

  -- For every call, WriteResponse finds a body for the service that ReadRequestHeader chose, and
  -- the client's check of the reply says of the call what RFC 5531 wants, but for another version
  -- of RPC or other credentials, of which it says nothing. The table has entries, and no
  -- procedure of it has the name of an error.
  pub reply_body-Reported :
      HasMethods table
      → (body : ReplyBody) × (reply_body table
            (select_method table call current).1
            (select_method table call current).0
          ≡ some body)
        × Reported table call (check_reply_for_err (Selected.message (reply_message seq body)))
  reply_body-Reported methods =
      told (select_method table call current).0 methods
        ((select_method-Verdict table call current (select_method table call current).0).0 refl)
