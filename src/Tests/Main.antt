-- ===== src/Tests/Main.antt =====
-- The theorems on main, for a host whose log of the portmapper's calls is its state.
use gonfs.Common.{
  ℕ, ◌≡◌, ◌↔◌, refl, Bool, true, false, Text, codes, List, [], ◌∷◌, ◌++◌, Option, none, some, ◌==◌,
  arith,
}
use gonfs.Oncrpc.Message.{CallBody, zero_auth}
use gonfs.Oncrpc.ServerCodec.{new_server_codec, select_method}
use gonfs.Portmapper.{Rpcbind, Mapping}
use gonfs.Backend.Base.{ConfigOptions}
use gonfs.Prog.Run.{Server}
use gonfs.Svc.{Request, link}
use gonfs.Main.Startup.{Host, Flags, serving, start, proc_table_server}
use gonfs.Main.Ready.{IsReady}
use gonfs.Main.Serving.{start-IsReady}
use gonfs.Main.Accept.{Accepted, accepted, accept_failed}
use gonfs.Main.Admitted.{IsServed, IsAdmitted, accept_loop-IsAdmitted}
use gonfs.Main.Methods.{service, select_method-service}
use gonfs.Tests.Fixture.{os, export, backend}
use gonfs.Tests.Replies.{server}

abbrev rpcbind : Rpcbind
rpcbind = record {
  State = List Text;
  dial = λ s. (true, s);
  call = λ service mapping s. ((true, true), s ++ service ∷ []);
  close = λ s. s;
}

-- An address is a number, and a network the one address that it contains.
abbrev host : Host
host = record {
  Network = ℕ;
  Ip = ℕ;
  getwd = some (codes "/");
  parse_cidr = λ a. some 5;
  contains = λ network ip. network == ip;
  open_file = λ file. true;
  listen = λ addr port. true;
  current_user = true;
  rpcbind = rpcbind;
  os = os;
}

abbrev flags : Flags
flags = record {
  nfsport = 40389;
  pmapregister = true;
  listen_addr = codes "0.0.0.0";
  allow_addr = codes "*";
  writeaccess = true;
  export_path = export;
  log_file = [];
}

abbrev calls : List Text
calls =
    codes "PmapProc.PmapProc2_unset"
    ∷ codes "PmapProc.PmapProc2_set"
    ∷ codes "PmapProc.PmapProc2_unset"
    ∷ codes "PmapProc.PmapProc2_set"
    ∷ []

start-IsReady_example :
    (start host flags server [] ≡ (serving 5 backend.config, calls))
    ↔ IsReady host flags server [] 5 backend.config calls
start-IsReady_example = start-IsReady host flags server [] calls 5 backend.config

-- It does reach its loop.
started : start host flags server [] ≡ (serving 5 backend.config, calls)
unfolding start gonfs.Common.text_eq gonfs.Common.has_prefix gonfs.Portmapper.pmap_unset
    gonfs.Portmapper.pmap_set gonfs.Prog.Run.run gonfs.Backend.Mount.backend_config_setup
    gonfs.Backend.Base.stat_path gonfs.Prog.◌>>=◌ gonfs.Backend.Base.get_file_attr_from_path
    gonfs.Prog.attempt gonfs.Backend.Base.fill_attr
started = refl

abbrev accepts : List (Accepted Text ℕ)
accepts =
    accepted (codes "a") 4 ∷ accepted (codes "b") 5 ∷ accept_failed ∷ accepted (codes "c") 5 ∷ []

accept_loop-IsAdmitted_example :
    IsServed host 5 accepts (codes "b", new_server_codec proc_table_server)
    ↔ IsAdmitted host 5 accepts (codes "b", new_server_codec proc_table_server)
accept_loop-IsAdmitted_example =
    accept_loop-IsAdmitted host 5 accepts (codes "b", new_server_codec proc_table_server)

abbrev call_link : CallBody
call_link = record {
  rpc_version = 2;
  program = 100003;
  version = 3;
  procedure = 15;
  cred = zero_auth;
  verf = zero_auth;
}

abbrev linked : Request
linked = link (codes "old") (codes "dir") (codes "name")

select_method-service_example : (select_method proc_table_server call_link none).0 ≡ service linked
select_method-service_example =
    select_method-service linked call_link none (refl, omega arith) refl refl refl
