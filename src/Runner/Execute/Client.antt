-- ===== src/Runner/Execute/Client.antt =====
-- runner/handler.go: the address of the client.
use hackathon.Common.{ℕ, ◌≤◌, ◌<◌, ◌≡◌, refl, true, false, none, some, [], ◌∷◌, ◌++◌, arith}
use hackathon.Text.{Text, is_empty, all_test}
use hackathon.Text.Decimal.{decimal, is_digit, digits-decimal, filled-decimal, parse_uint-decimal}
use hackathon.Runner.Execute.{Netip, cut_last, max_uint16, parse_client_address}

cut_last-digits : (s : Text) → all_test is_digit s ≡ true → cut_last b':' s ≡ none
unfolding cut_last
cut_last-digits [] h = refl
cut_last-digits (c ∷ s) h = ground (arith, cut_last-digits s)

cut_last-append :
    (before s : Text)
    → all_test is_digit s ≡ true
    → cut_last b':' (before ++ (b':' ∷ s)) ≡ some (before, s)
unfolding cut_last
cut_last-append [] s h = rw (cut_last-digits s h) refl
cut_last-append (c ∷ before) s h = rw (cut_last-append before s h) refl

module _ (n : Netip) where
  open n use {Addr, AddrPort, parse_addr_port, parse_addr, addr_port_from, port_of, text_of}

  -- An address and a port from 1 to 65535 with a colon between them are accepted, also where
  -- netip.ParseAddrPort does not read them, as for an IPv6 address without brackets.
  pub parse_client_address-parts :
      (before : Text) (ip : Addr) (port : ℕ)
      → parse_addr_port (before ++ (b':' ∷ decimal port)) ≡ none
      → parse_addr before ≡ some ip
      → is_empty before ≡ false
      → 0 < port
      → port ≤ max_uint16
      → parse_client_address n (before ++ (b':' ∷ decimal port))
        ≡ some (text_of (addr_port_from ip port))
  unfolding parse_client_address
  parse_client_address-parts before ip port unread read filled pos le = rw unread (
      rw (cut_last-append before (decimal port) (digits-decimal port)) (
        rw (filled, filled-decimal port)
          (rw (read, parse_uint-decimal max_uint16 port le) (ground arith))))
