-- ===== src/Platform/Domains.antt =====
-- platform/lib/provision.ts: `isValidDomain` and `nextFreePort`; platform/lib/nginx.ts: `escapeRegex`,
-- `writeMapFile` and the test of `reloadNginx`. The map file holds a line for each active instance,
-- here its escaped domain with its port; the fixed first and last lines are left out.
use mathlib.Core.List.{reverse}
use r2storage.Platform.{Instance, PlatformConfig, PlatformState, is_active}
use r2storage.Prelude.{
  Bool, List, Option, Text, [], all, any, codes, false, if◌then◌else◌, is_digit, leb, length, map,
  none, not, some, split, suc, zero, ℕ, ◌&&◌, ◌+◌, ◌-◌, ◌==◌, ◌||◌, ◌∷◌,
}

-- `[a-z]` and `[a-z0-9]` without regard to case.
is_letter : ℕ → Bool
is_letter c = (leb b'a' c && leb c b'z') || (leb b'A' c && leb c b'Z')

is_alphanumeric : ℕ → Bool
unfolding is_letter is_digit
is_alphanumeric c = is_letter c || is_digit c

ends_alphanumeric : Text → Bool
unfolding is_alphanumeric
ends_alphanumeric [] = false
ends_alphanumeric (c ∷ s) = is_alphanumeric c

-- `[a-z0-9]([a-z0-9-]*[a-z0-9])?`
is_label : Text → Bool
unfolding ends_alphanumeric is_alphanumeric
is_label s =
    ends_alphanumeric s
    && ends_alphanumeric (reverse s)
    && all (λ c. is_alphanumeric c || c == b'-') s

-- The labels in reverse: the top-level domain, and at least one label before it.
are_labels : List Text → Bool
unfolding is_label is_letter
are_labels (top ∷ label ∷ labels) =
    all is_letter top && leb 2 (length top) && leb (length top) 63 && all is_label (label ∷ labels)
are_labels other = false

unfoldable pub is_valid_domain : Text → Bool
unfolding are_labels split
is_valid_domain d = leb 4 (length d) && leb (length d) 253 && are_labels (reverse (split b'.' d))

-- The first of `fuel` ports from `p` on that no row has.
unfoldable pub free_port_from : ℕ → ℕ → List Instance → Option ℕ
free_port_from zero p is = none
free_port_from (suc fuel) p is =
    let rest = free_port_from fuel (p + 1) is in if any (λ i. i.port == p) is then rest else some p

unfoldable pub next_free_port : PlatformConfig → List Instance → Option ℕ
unfolding free_port_from
next_free_port cfg is =
    free_port_from (cfg.tenant_port_max + 1 - cfg.tenant_port_min) cfg.tenant_port_min is

is_regex_mark : ℕ → Bool
is_regex_mark c = any (λ m. c == m) (codes ".*+?^${}()|[]\\")

unfoldable pub escape_regex : Text → Text
unfolding is_regex_mark
escape_regex [] = []
escape_regex (c ∷ s) =
    let rest = escape_regex s in if is_regex_mark c then 92 ∷ c ∷ rest else c ∷ rest

unfoldable pub insert_by_port : Instance → List Instance → List Instance
insert_by_port i [] = i ∷ []
insert_by_port i (j ∷ js) = if leb i.port j.port then i ∷ j ∷ js else j ∷ insert_by_port i js

-- The active instances by ascending port.
unfoldable pub active_by_port : List Instance → List Instance
unfolding insert_by_port
active_by_port [] = []
active_by_port (i ∷ is) =
    let rest = active_by_port is in if is_active i.status then insert_by_port i rest else rest

unfoldable pub write_map_file : PlatformConfig → PlatformState → PlatformState
write_map_file cfg p =
    if cfg.map_file_set
    then record p {
      map_file = map (λ i. (escape_regex i.domain, i.port)) (active_by_port p.instances);
    }
    else p

-- Whether `reloadNginx` returns, told whether `nginx -t` and the reload succeed.
unfoldable pub reload_nginx : PlatformConfig → Bool → Bool
reload_nginx cfg nginx_ok = not cfg.reloads_nginx || nginx_ok
