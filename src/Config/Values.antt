-- ===== src/Config/Values.antt =====
-- src/config/resolve.rs: the parsing of values. What the standard library and the crate ipnet parse,
-- addresses of sockets, hosts and networks, is the parameter `Parsers`.
use Prim.Native.Char.{code}
use Prim.Native.String.{String, len, ◌++◌ as append}
use text.Mathlib.Text.{◌==◌ as str_eq}
use kiss_tnc_bridge.Prelude.{
  ℕ, ◌*◌, ◌%◌, ◌^◌, Bool, false, not, ◌&&◌, ◌||◌, ◌==◌, List, [], ◌∷◌, Option, none, some, ltb,
  if◌then◌else◌,
}
use kiss_tnc_bridge.Prelude.Results.{Result, ok, err, ◌>>=◌}
use kiss_tnc_bridge.Config.Addresses.{Mac, IpAddr, v4, SocketAddr, Listen, addr, interface}
use kiss_tnc_bridge.Config.Model.{TncModel, generic, th_d7x, td_h9}
use kiss_tnc_bridge.Config.Text.{
  is_digit, is_lowercase, is_empty, all_chars, has_char, trim, split, rsplit_once, split_digits,
  parse_unsigned, show_byte,
}

-- The errors, with what they show.
pub data ValueError : Type 0 where
  not_mac : String → ValueError
  bad_octet : String → String → ValueError
  not_duration bad_unit : String → ValueError
  empty_id : String → ValueError
  long_id bad_id : String → String → ValueError
  bad_port : String → String → ValueError
  not_listen not_host_port unwrapped_host : String → ValueError
  unknown_model : String → ValueError

pub record Parsers (N : Type 0) : Type 0 where
  pub parse_socket_addr : String → Option SocketAddr
  pub parse_ip_addr : String → Option IpAddr
  pub show_ip_addr : IpAddr → String
  pub parse_net : String → Option N
  pub net_of : IpAddr → N

abbrev pub default_log_level : String
default_log_level = "info"

abbrev pub default_control_group : String
default_control_group = "kiss-tnc-bridge"

abbrev pub default_ble_max_clients : ℕ
default_ble_max_clients = 1

abbrev pub default_serial_baud : ℕ
default_serial_baud = 9600

abbrev pub max_id_len : ℕ
max_id_len = 15

unfoldable pub parse_octet : String → String → Result ValueError ℕ
unfolding parse_unsigned
parse_octet s p =
    if len p == 2
    then elim (parse_unsigned 16 256 p) [ some n ↦ ok n | none ↦ err (bad_octet s p) ]
    else err (not_mac s)

-- `Mac::from_str` on the parts.
unfoldable pub mac_of : String → List String → Result ValueError Mac
unfolding parse_octet
mac_of s (a ∷ b ∷ c ∷ d ∷ e ∷ f ∷ []) = do
  a' ← parse_octet s a
  b' ← parse_octet s b
  c' ← parse_octet s c
  d' ← parse_octet s d
  e' ← parse_octet s e
  f' ← parse_octet s f
  ok (record { octets = (a', b', c', d', e', f') })
mac_of s _ = err (not_mac s)

unfoldable pub parse_mac : String → Result ValueError Mac
unfolding mac_of split
parse_mac s = mac_of s (split 58 s)

-- The `Display` of an address.
unfoldable pub show_mac : Mac → String
unfolding show_byte
show_mac m =
    let (a, b, c, d, e, f) = m.octets in
    append (show_byte a) (
      append ":" (
        append (show_byte b) (
          append ":" (
            append (show_byte c) (
              append ":" (
                append (show_byte d)
                  (append ":" (append (show_byte e) (append ":" (show_byte f))))))))))

-- `strip_prefix("hci")`, and the test on the rest.
unfoldable pub is_number : String → Bool
unfolding is_empty all_chars is_digit
is_number s = not (is_empty s) && all_chars is_digit s

unfoldable pub is_hci_name : String → Bool
unfolding is_number
is_hci_name (String.◌∷◌ a (String.◌∷◌ b (String.◌∷◌ c n))) =
    code a == 104 && code b == 99 && code c == 105 && is_number n
is_hci_name _ = false

pub data AdapterValue : Type 0 where
  id_value : String → AdapterValue
  mac_value : Mac → AdapterValue
  hci_value : String → AdapterValue

unfoldable pub parse_adapter : String → AdapterValue
unfolding parse_mac is_hci_name
parse_adapter s = elim (parse_mac s) [
  | ok m ↦ mac_value m
  | err e ↦ if is_hci_name s then hci_value s else id_value s
]

-- A number of milliseconds. The products are those of a release build, which wrap.
unfoldable pub duration_of : String → ℕ → String → Result ValueError ℕ
duration_of s n unit =
    if str_eq unit "" || str_eq unit "s"
    then ok (n * 1000)
    else if str_eq unit "ms"
    then ok n
    else if str_eq unit "m"
    then ok ((n * 60) % 2 ^ 64 * 1000)
    else if str_eq unit "h"
    then ok ((n * 3600) % 2 ^ 64 * 1000)
    else err (bad_unit s)

unfoldable pub parse_duration : String → Result ValueError ℕ
unfolding duration_of parse_unsigned split_digits trim
parse_duration text =
    let s = trim text in
    let (num, unit) = split_digits s in
    elim (parse_unsigned 10 (2 ^ 64) num) [
      | some n ↦ duration_of s n (trim unit)
      | none ↦ err (not_duration s)
    ]

unfoldable pub is_id_char : ℕ → Bool
unfolding is_lowercase is_digit
is_id_char c = is_lowercase c || is_digit c || c == 45

unfoldable pub check_id : String → String → Result ValueError (Unit {0})
unfolding is_empty all_chars is_id_char
check_id id what =
    if is_empty id
    then err (empty_id what)
    else if ltb max_id_len (len id)
    then err (long_id what id)
    else if all_chars is_id_char id
    then ok tt
    else err (bad_id what id)

-- `TncModel::from_str` on the table `MODELS`.
unfoldable pub parse_model : String → Result ValueError TncModel
parse_model s =
    if str_eq s "generic"
    then ok generic
    else if str_eq s "th-d74" || str_eq s "th-d75"
    then ok th_d7x
    else if str_eq s "td-h9"
    then ok td_h9
    else err (unknown_model s)

module _ {N : Type 0} (p : Parsers N) where
  -- Behind `rsplit_once`.
  unfoldable pub listen_of : String → String → String → Result ValueError Listen
  unfolding parse_unsigned is_empty has_char
  listen_of s name text = elim (parse_unsigned 10 65536 text) [
    | none ↦ err (bad_port s text)
    | some port ↦
        if is_empty name || has_char 58 name || has_char 47 name
        then err (not_listen s)
        else elim (p.parse_ip_addr name) [
          | some ip ↦ ok (addr (record { ip = ip; port = port; flowinfo = 0; scope_id = 0 }))
          | none ↦ ok (interface name port)
        ]
  ]

  unfoldable pub parse_listen : String → Result ValueError Listen
  unfolding parse_unsigned listen_of rsplit_once
  parse_listen s = elim (parse_unsigned 10 65536 s) [
    | some port ↦ ok (addr (record { ip = v4 0x7F000001; port = port; flowinfo = 0; scope_id = 0 }))
    | none ↦ elim (p.parse_socket_addr s) [
      | some a ↦ ok (addr a)
      | none ↦ elim (rsplit_once 58 s) [
        | some (name, text) ↦ listen_of s name text
        | none ↦ err (not_listen s)
      ]
    ]
  ]

  unfoldable pub host_port_of : String → String → String → Result ValueError (String × ℕ)
  unfolding parse_unsigned is_empty has_char
  host_port_of s host text = elim (parse_unsigned 10 65536 text) [
    | none ↦ err (bad_port s text)
    | some port ↦
        if is_empty host || has_char 58 host then err (unwrapped_host s) else ok (host, port)
  ]

  unfoldable pub parse_host_port : String → Result ValueError (String × ℕ)
  unfolding host_port_of rsplit_once
  parse_host_port s = elim (p.parse_socket_addr s) [
    | some a ↦ ok (p.show_ip_addr a.ip, a.port)
    | none ↦ elim (rsplit_once 58 s) [
      | some (host, text) ↦ host_port_of s host text
      | none ↦ err (not_host_port s)
    ]
  ]
