-- ===== src/Auth/Config.antt =====
-- LDAPConfig::validate.
use open_arango_dbcore.Prelude.{
  ◌≡◌, Bool, true, false, ◌&&◌, not, Option, none, some, leb, if◌then◌else◌, ℤ, pos, negsuc, arith,
}
use open_arango_dbcore.Auth.{LdapAuthMode, simple, search, LdapConfig, is_empty}

pub data ConfigError : Type 0 where
  no_server port_out_of_range no_binddn no_basedn both_tls : ConfigError

abbrev pub port_fits : ℤ → Bool
port_fits (pos n) = leb 1 n && leb n 65535
port_fits (negsuc n) = false

abbrev pub is_search : LdapAuthMode → Bool
is_search simple = false
is_search search = true

-- `none` is the empty string, a valid configuration.
unfoldable pub validate : LdapConfig → Option ConfigError
validate c =
    if is_empty c.server
    then some no_server
    else if not (port_fits c.port)
    then some port_out_of_range
    else if is_search c.mode && is_empty c.binddn
    then some no_binddn
    else if is_search c.mode && is_empty c.basedn
    then some no_basedn
    else if c.use_tls && c.use_ldaps
    then some both_tls
    else none

pub validate_sound :
    (c : LdapConfig)
    → validate c ≡ none
    → (is_empty c.server ≡ false)
      × (port_fits c.port ≡ true)
      × (is_search c.mode ≡ true → (is_empty c.binddn ≡ false) × (is_empty c.basedn ≡ false))
      × (c.use_tls ≡ true → c.use_ldaps ≡ false)
unfolding validate
validate_sound c valid = ground arith
