-- ===== src/Packet/Key.antt =====
-- The keys of the connection-to-inode table: what na-packet.c and na-conninode.c print with
-- "%s:%d-%s:%d".
use gnome_usage.Base.{
  ℕ, ◌<◌, ◌^◌, ◌≡◌, ◌≢◌, ◌⊎◌, refl, sym, ap, ◌∙◌, arith, All-map, All-append, [], ◌∷◌, ◌++◌, length,
  length-append,
}
use gnome_usage.Base.Text.{Text}
use gnome_usage.Base.Decimal.{
  print_int, print_nat, value_from, value_from-print_nat, print_nat-IsDigit, print_int-print_nat,
  Without, split_first, split_last,
}
use gnome_usage.Packet.{hash_key}

print_int-Without : (c w : ℕ) → w < 2 ^ 31 → (c < 48) ⊎ (57 < c) → Without c (print_int w)
print_int-Without c w h k =
    rw (print_int-print_nat w h)
      (All-map (λ d b e. omega arith) (print_nat w) (print_nat-IsDigit w))

print_int-injective : (v w : ℕ) → v < 2 ^ 31 → w < 2 ^ 31 → print_int v ≡ print_int w → v ≡ w
print_int-injective v w hv hw e =
    sym (value_from-print_nat v)
    ∙ ap (value_from 0) (sym (print_int-print_nat v hv) ∙ e ∙ print_int-print_nat w hw)
    ∙ value_from-print_nat w

-- An address behind its colon and port, neither of which holds the separating dash.
host_port-Without :
    (s : Text) (port : ℕ) → Without 45 s → port < 2 ^ 31 → Without 45 (s ++ 58 ∷ print_int port)
host_port-Without s port h k =
    All-append (λ d. d ≢ 45) s (58 ∷ print_int port) h
      (omega arith, print_int-Without 45 port k (omega arith))

host_port-injective :
    (s s' : Text) (port port' : ℕ)
    → port < 2 ^ 31
    → port' < 2 ^ 31
    → s ++ 58 ∷ print_int port ≡ s' ++ 58 ∷ print_int port'
    → (s ≡ s') × (port ≡ port')
host_port-injective s s' port port' h h' e =
    let (hosts, ports) =
      split_last 58 s s' (print_int port) (print_int port')
        (print_int-Without 58 port h (omega arith)) (print_int-Without 58 port' h' (omega arith))
        e in
    (hosts, print_int-injective port port' h h' ports)

-- Two keys, with no dash in the text of the first address and all ports below 2 ^ 31, are equal
-- only if their addresses and ports are, in their order.
pub hash_key-injective :
    (s d s' d' : Text) (s_port d_port s_port' d_port' : ℕ)
    → Without b'-' s
    → Without b'-' s'
    → s_port < 2 ^ 31
    → d_port < 2 ^ 31
    → s_port' < 2 ^ 31
    → d_port' < 2 ^ 31
    → hash_key s s_port d d_port ≡ hash_key s' s_port' d' d_port'
    → (s ≡ s') × (s_port ≡ s_port') × (d ≡ d') × (d_port ≡ d_port')
unfolding hash_key
hash_key-injective s d s' d' sp dp sp' dp' hs hs' bs bd bs' bd' e =
    let (front, back) =
      split_first 45 (s ++ 58 ∷ print_int sp) (s' ++ 58 ∷ print_int sp') (d ++ 58 ∷ print_int dp)
        (d' ++ 58 ∷ print_int dp') (host_port-Without s sp hs bs) (host_port-Without s' sp' hs' bs')
        e in
    let (hosts, ports) = host_port-injective s s' sp sp' bs bs' front in
    let (hosts', ports') = host_port-injective d d' dp dp' bd bd' back in
    (hosts, ports, hosts', ports')

append_cancel_right : (s s' t : Text) → s ++ t ≡ s' ++ t → s ≡ s'
append_cancel_right [] [] t e = refl
append_cancel_right [] (d ∷ s') t e = absurd (omega (arith, ap length e, length-append (d ∷ s') t))
append_cancel_right (c ∷ s) [] t e = absurd (omega (arith, ap length e, length-append (c ∷ s) t))
append_cancel_right (c ∷ s) (d ∷ s') t e = cc (append_cancel_right s s' t (cc))

-- Two keys that differ at most in the first address tell it apart.
pub hash_key-source :
    (s s' d : Text) (s_port d_port : ℕ)
    → hash_key s s_port d d_port ≡ hash_key s' s_port d d_port
    → s ≡ s'
unfolding hash_key
hash_key-source s s' d s_port d_port e = append_cancel_right s s' (b':' ∷ print_int s_port) (
    append_cancel_right (s ++ b':' ∷ print_int s_port) (s' ++ b':' ∷ print_int s_port)
      (b'-' ∷ (d ++ b':' ∷ print_int d_port)) e)
