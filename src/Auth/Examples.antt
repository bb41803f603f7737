-- ===== src/Auth/Examples.antt =====
-- Tests of the LDAP authentication, and the theorems at a directory of one user.
use open_arango_dbcore.Prelude.{
  ℕ, zero, suc, ◌+◌, ◌≡◌, refl, inl, Bool, true, false, Option, none, some, List, [], ◌∷◌, ◌++◌,
  if◌then◌else◌, Str, str_key, str_eq, pos,
}
use open_arango_dbcore.Auth.{
  simple, search, LdapConfig, LdapFunctions, World, unbind_call, bind_call, start_tls_call,
  set_option_call, c_str, authenticate,
}
use open_arango_dbcore.Auth.Config.{validate, port_out_of_range}
use open_arango_dbcore.Auth.Handles.{Clean, authenticate-Clean}
use open_arango_dbcore.Auth.Binding.{Authentic, authenticate-Authentic}

abbrev password : Str
password = b'p' ∷ []

-- The state is the number of handles given.
abbrev directory : LdapFunctions ℕ
unfolding open_arango_dbcore.Prelude.str_eq
directory = record {
  initialize = λ uri w. ((0, some w), suc w);
  simple_bind = λ handle dn given w. (if str_eq given password then 0 else 49, w);
  search_ext_s = λ handle base filter w. ((0, some 7), w);
  set_ca_cert_file = λ handle path w. w;
  start_tls_s = λ handle w. (0, w);
  unbind_ext = λ handle w. w;
  first_entry = λ handle message w. (some message, w);
  get_dn = λ handle entry w. (some (b'u' ∷ []), w);
  get_values_len = λ handle entry attribute w. (some (some (b'r' ∷ []) ∷ none ∷ some [] ∷ []), w);
}

abbrev config : LdapConfig
config = record {
  server = b'h' ∷ [];
  port = pos 389;
  basedn = b'b' ∷ [];
  binddn = b'a' ∷ [];
  bindpasswd = password;
  prefix = b'c' ∷ b'=' ∷ [];
  suffix = b',' ∷ [];
  use_tls = true;
  use_ldaps = false;
  tls_ca_cert_file = b'f' ∷ [];
  roles_attribute = b'm' ∷ [];
  roles_search = [];
  mode = search;
}

abbrev world : World ℕ
world = record { library = 0; open_handles = []; misused = false; calls = [] }

accepted : (authenticate directory config (b'u' ∷ []) password world).0 ≡ (true, (b'r' ∷ []) ∷ [])
unfolding authenticate open_arango_dbcore.Prelude.str_eq
accepted = refl

rejected :
    authenticate directory (record config { mode = simple }) (b'u' ∷ []) (b'x' ∷ []) world ≡ (
      (false, []),
      record world {
        library = 1;
        calls =
            unbind_call 0
            ∷ bind_call 0 (b'c' ∷ b'=' ∷ b'u' ∷ b',' ∷ []) (b'x' ∷ []) 49
            ∷ start_tls_call 0 0
            ∷ set_option_call 0
            ∷ [];
      },
    )
unfolding authenticate open_arango_dbcore.Prelude.str_eq
rejected = refl

-- The bytes behind a zero byte of the password are not looked at.
cut_password : c_str (b'p' ∷ 0 ∷ b'x' ∷ []) ≡ password
unfolding c_str
cut_password = refl

port_zero : validate (record config { port = pos 0 }) ≡ some port_out_of_range
unfolding validate
port_zero = refl

authenticate-Clean_example : Clean (authenticate directory config (b'u' ∷ []) password world).1
unfolding directory
authenticate-Clean_example =
    authenticate-Clean directory config (b'u' ∷ []) password world (λ uri w. inl refl) (refl, refl)

authenticate-Authentic_example :
    ((authenticate directory config (b'u' ∷ []) password world).0.0 ≡ true
      → Authentic search config
          (b'u' ∷ [])
          password
          (authenticate directory config (b'u' ∷ []) password world).1.calls)
    × ((authenticate directory config (b'u' ∷ []) password world).0.0 ≡ false
        → (authenticate directory config (b'u' ∷ []) password world).0.1 ≡ [])
authenticate-Authentic_example =
    authenticate-Authentic directory config (b'u' ∷ []) password world refl
