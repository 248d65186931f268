-- ===== src/Portal/Proxy/Tests.antt =====
-- An operator's file with the bridge's marker, and the round trip at it.
use cascade_vpn.Base.{◌≡◌, refl, false, some, none, ok, List, ℕ, ◌∷◌, ◌++◌, codes, begins, cut}
use cascade_vpn.Portal.Proxy.{
  bridge_marker, insertion, read_from, ensure_text, ensure_reverse_proxy, remove_reverse_proxy,
}
use cascade_vpn.Portal.Proxy.RoundTrip.{remove-ensure, ensure_twice}

-- Its first line ends in "\r\n".
abbrev operator_file : List ℕ
operator_file = codes "port = 443" ++ (13 ∷ (codes "\n" ++ (bridge_marker ++ codes "\n")))

abbrev read_file : List ℕ
read_file = codes "port = 443\n" ++ (bridge_marker ++ codes "\n")

abbrev served_file : List ℕ
served_file = codes "port = 443\n" ++ (insertion ++ (bridge_marker ++ codes "\n"))

adds_table : ensure_reverse_proxy (λ text. false) operator_file ≡ ok (some served_file)
unfolding ensure_reverse_proxy ensure_text read_from codes begins cut
adds_table = refl

remove-ensure_example : remove_reverse_proxy served_file ≡ ok (some read_file)
unfolding read_from codes
remove-ensure_example = remove-ensure (λ text. false) operator_file served_file adds_table

ensure_twice_example : ensure_reverse_proxy (λ text. false) served_file ≡ ok none
ensure_twice_example = ensure_twice (λ text. false) operator_file served_file adds_table
