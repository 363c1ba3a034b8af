-- ===== src/Firewall/Scripts.antt =====
-- The scripts and the command lines that firewall/backends.py gives to `nft`.
use net_father.Prelude.{Bool, not, List, [], ◌∷◌, ◌++◌, keep, text_eq_instance, Text}
use net_father.Prelude.Strings.{codes, join, has_char}

abbrev pub table : Text
table = codes "netfather"

-- Lines of a script.
abbrev pub lines : List Text → Text
lines texts = join (10 ∷ []) texts

abbrev is_ipv6 : Text → Bool
is_ipv6 ip = has_char b':' ip

unfoldable pub ipv4_of : List Text → List Text
ipv4_of ips = keep (λ ip. not (is_ipv6 ip)) ips

unfoldable pub ipv6_of : List Text → List Text
ipv6_of ips = keep is_ipv6 ips

abbrev comma_list : List Text → Text
comma_list ips = join (codes ", ") ips

-- The body of a set: its type, and its elements where it has some.
unfoldable pub set_body : Text → List Text → Text
set_body kind [] = codes "type " ++ (kind ++ codes ";")
set_body kind (ip ∷ ips) =
    codes "type " ++ (kind ++ (codes "; elements = { " ++ (comma_list (ip ∷ ips) ++ codes " }")))

unfoldable pub ruleset_text : List Text → Text
unfolding ipv4_of ipv6_of set_body
ruleset_text ips = lines (
    (codes "table inet " ++ (table ++ codes " {"))
    ∷ (codes "  set blocked4 { " ++ (set_body (codes "ipv4_addr") (ipv4_of ips) ++ codes " }"))
    ∷ (codes "  set blocked6 { " ++ (set_body (codes "ipv6_addr") (ipv6_of ips) ++ codes " }"))
    ∷ codes "  chain input {"
    ∷ codes "    type filter hook input priority 0;"
    ∷ codes "    policy accept;"
    ∷ codes "    ip saddr @blocked4 drop;"
    ∷ codes "    ip6 saddr @blocked6 drop;"
    ∷ codes "  }"
    ∷ codes "  chain output {"
    ∷ codes "    type filter hook output priority 0;"
    ∷ codes "    policy accept;"
    ∷ codes "    ip daddr @blocked4 drop;"
    ∷ codes "    ip6 daddr @blocked6 drop;"
    ∷ codes "  }"
    ∷ codes "  chain forward {"
    ∷ codes "    type filter hook forward priority 0;"
    ∷ codes "    policy accept;"
    ∷ codes "    ip saddr @blocked4 drop;"
    ∷ codes "    ip daddr @blocked4 drop;"
    ∷ codes "    ip6 saddr @blocked6 drop;"
    ∷ codes "    ip6 daddr @blocked6 drop;"
    ∷ codes "  }"
    ∷ codes "}"
    ∷ [])

pub upgrade_script : Text
upgrade_script = lines (
    (codes "add set inet " ++ (table ++ codes " blocked6 { type ipv6_addr; }"))
    ∷ (codes "add rule inet " ++ (table ++ codes " input ip6 saddr @blocked6 drop"))
    ∷ (codes "add rule inet " ++ (table ++ codes " output ip6 daddr @blocked6 drop"))
    ∷ (codes "add rule inet " ++ (table ++ codes " forward ip6 saddr @blocked6 drop"))
    ∷ (codes "add rule inet " ++ (table ++ codes " forward ip6 daddr @blocked6 drop"))
    ∷ []
    ∷ [])

flush_lines : List Text
flush_lines =
    (codes "flush set inet " ++ (table ++ codes " blocked4"))
    ∷ (codes "flush set inet " ++ (table ++ codes " blocked6"))
    ∷ []

-- The line that adds elements, where there are some.
abbrev add_line : Text → List Text → List Text
add_line set_name [] = []
add_line set_name (ip ∷ ips) =
    (codes "add element inet "
      ++ (table
          ++ (codes " " ++ (set_name ++ (codes " { " ++ (comma_list (ip ∷ ips) ++ codes " }"))))))
    ∷ []

unfoldable pub update_script : List Text → Text
unfolding flush_lines ipv4_of ipv6_of
update_script ips = lines (
    flush_lines
    ++ (add_line (codes "blocked4") (ipv4_of ips)
        ++ (add_line (codes "blocked6") (ipv6_of ips) ++ ([] ∷ []))))

unfoldable pub rollback_script : Text
unfolding flush_lines
rollback_script = lines (flush_lines ++ ([] ∷ []))

abbrev pub check_args : Text → List Text
check_args nft = nft ∷ codes "-c" ∷ codes "-f" ∷ codes "-" ∷ []

abbrev pub load_args : Text → List Text
load_args nft = nft ∷ codes "-f" ∷ codes "-" ∷ []

abbrev pub list_table_args : Text → List Text
list_table_args nft = nft ∷ codes "list" ∷ codes "table" ∷ codes "inet" ∷ table ∷ []

abbrev pub list_set_args : Text → Text → Text → List Text
list_set_args nft owner set_name =
    nft ∷ codes "-j" ∷ codes "list" ∷ codes "set" ∷ codes "inet" ∷ owner ∷ set_name ∷ []
