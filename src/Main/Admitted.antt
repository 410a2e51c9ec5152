-- ===== src/Main/Admitted.antt =====
-- main.go: whom the loop that accepts connections serves.
use gonfs.Common.{
  ℕ, zero, suc, ◌≡◌, ◌≢◌, ◌≤◌, ◌↔◌, refl, sym, ap, ◌∙◌, subst, Bool, true, false, List, [], ◌∷◌,
  some, get_elem?, if◌then◌else◌, arith,
}
use gonfs.Oncrpc.ServerCodec.{ServerCodec, new_server_codec}
use gonfs.Main.Startup.{Host, proc_table_server}
use gonfs.Main.Accept.{Accepted, accepted, accept_failed, accept_loop}

module _ (host : Host) {Conn : Type 0} (network : host.Network) where
  open host use {Ip, contains}

  -- Somewhere among those served.
  abbrev pub IsServed : List (Accepted Conn Ip) → Conn × ServerCodec → Type 0
  IsServed conns served = (k : ℕ) × (get_elem? (accept_loop host network conns) k ≡ some served)

  -- Accepted before any error of Accept, from an address in the network, with a new codec.
  abbrev pub IsAdmitted : List (Accepted Conn Ip) → Conn × ServerCodec → Type 0
  IsAdmitted conns (conn, codec) =
      (i : ℕ) × (ip : Ip) × (get_elem? conns i ≡ some (accepted conn ip))
      × (contains network ip ≡ true)
      × (codec ≡ new_server_codec proc_table_server)
      × ((j : ℕ) → j ≤ i → get_elem? conns j ≢ some accept_failed)

  later-IsAdmitted :
      (first : Conn) (from : Ip) (rest : List (Accepted Conn Ip)) (served : Conn × ServerCodec)
      → IsAdmitted rest served
      → IsAdmitted (accepted first from ∷ rest) served
  later-IsAdmitted first from rest (conn, codec) (i, ip, at, inside, new, before) =
      (suc i, ip, at, inside, new, early)
    where
      early : (j : ℕ) → j ≤ suc i → get_elem? (accepted first from ∷ rest) j ≢ some accept_failed
      early zero h e = absurd (cc)
      early (suc j) h e = before j (omega arith) e

  now-IsAdmitted :
      (conn : Conn) (ip : Ip) (rest : List (Accepted Conn Ip))
      → contains network ip ≡ true
      → IsAdmitted (accepted conn ip ∷ rest) (conn, new_server_codec proc_table_server)
  now-IsAdmitted conn ip rest inside = (0, ip, refl, inside, refl, early)
    where
      early : (j : ℕ) → j ≤ 0 → get_elem? (accepted conn ip ∷ rest) j ≢ some accept_failed
      early zero h e = absurd (cc)
      early (suc j) h e = absurd (omega arith)

  served-IsAdmitted :
      (conns : List (Accepted Conn Ip)) (served : Conn × ServerCodec) (k : ℕ)
      → get_elem? (accept_loop host network conns) k ≡ some served
      → IsAdmitted conns served
  unfolding accept_loop
  served-IsAdmitted [] served k h = absurd (cc)
  served-IsAdmitted (accept_failed ∷ rest) served k h = absurd (cc)
  served-IsAdmitted (accepted conn ip ∷ rest) served k h =
      split (contains network ip) refl k h (λ j e. served-IsAdmitted rest served j e)
    where
      split :
          (b : Bool)
          → contains network ip ≡ b
          → (n : ℕ)
          → get_elem?
              (if b
                then (conn, new_server_codec proc_table_server) ∷ accept_loop host network rest
                else accept_loop host network rest)
              n
            ≡ some served
          → ((j : ℕ)
              → get_elem? (accept_loop host network rest) j ≡ some served
              → IsAdmitted rest served)
          → IsAdmitted (accepted conn ip ∷ rest) served
      split true inside zero e ih =
          subst (IsAdmitted (accepted conn ip ∷ rest)) (cc) (now-IsAdmitted conn ip rest inside)
      split true inside (suc n) e ih = later-IsAdmitted conn ip rest served (ih n e)
      split false outside n e ih = later-IsAdmitted conn ip rest served (ih n e)

  -- What is in a list is in the list with or without one more.
  also :
      (b : Bool) (y : Conn × ServerCodec) (l : List (Conn × ServerCodec)) (x : Conn × ServerCodec)
      → (k : ℕ) × (get_elem? l k ≡ some x)
      → (k : ℕ) × (get_elem? (if b then y ∷ l else l) k ≡ some x)
  also true y l x (k, h) = (suc k, h)
  also false y l x (k, h) = (k, h)

  admitted-IsServed :
      (conns : List (Accepted Conn Ip)) (conn : Conn) (ip : Ip) (i : ℕ)
      → get_elem? conns i ≡ some (accepted conn ip)
      → contains network ip ≡ true
      → ((j : ℕ) → j ≤ i → get_elem? conns j ≢ some accept_failed)
      → IsServed conns (conn, new_server_codec proc_table_server)
  unfolding accept_loop
  admitted-IsServed [] conn ip i at inside before = absurd (cc)
  admitted-IsServed (accept_failed ∷ rest) conn ip i at inside before =
      absurd (before 0 (omega arith) refl)
  admitted-IsServed (accepted c a ∷ rest) conn ip zero at inside before =
      (0, rw (there) (ap (λ x. some (x, new_server_codec proc_table_server)) (same at).0))
    where
      same : some (accepted c a) ≡ some (accepted conn ip) → (c ≡ conn) × (a ≡ ip)
      same h = (cc, cc)

      there : contains network a ≡ true
      there = ap (contains network) (same at).1 ∙ inside
  admitted-IsServed (accepted c a ∷ rest) conn ip (suc i) at inside before =
      also (contains network a) (c, new_server_codec proc_table_server)
        (accept_loop host network rest) (conn, new_server_codec proc_table_server)
        (admitted-IsServed rest conn ip i at inside (λ j h. before (suc j) (omega arith)))

  -- ServeCodec gets exactly the connections that were accepted before any error of Accept and come
  -- from an address in the allowed network, each with a new codec for the server's table.
  pub accept_loop-IsAdmitted :
      (conns : List (Accepted Conn Ip)) (served : Conn × ServerCodec)
      → IsServed conns served ↔ IsAdmitted conns served
  accept_loop-IsAdmitted conns (conn, codec) = (
    λ h. served-IsAdmitted conns (conn, codec) h.0 h.1,
    λ (i, ip, at, inside, new, before).
        subst (λ c. IsServed conns (conn, c)) (sym new)
          (admitted-IsServed conns conn ip i at inside before),
  )
