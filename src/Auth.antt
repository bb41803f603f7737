-- ===== src/Auth.antt =====
-- Enterprise/Auth/LDAPConfig.{h,cpp} and LDAPHandler.{h,cpp}: an authentication opens its own handles of
-- the LDAP library, binds with them and reads roles. The library's functions are parameters over a
-- state of its own; the ledger beside it keeps which handles are open, whether a handle was used that
-- is not, and every call with a handle and what it gave.
pub mod Handles
pub mod Calls
pub mod Binding
pub mod Config
mod Examples
use open_arango_dbcore.Prelude.{
  ℕ, zero, suc, ◌+◌, Bool, true, false, ◌&&◌, ◌||◌, not, Option, none, some, List, [], ◌∷◌, ◌++◌,
  ltb, leb, ◌==◌, if◌then◌else◌, length, take, drop, Str, str_key, find_str, to_string, lebℤ, ℤ,
  pos, negsuc,
}

pub data LdapAuthMode : Type 0 where
  simple search : LdapAuthMode

pub record LdapConfig : Type 0 where
  pub server : Str
  pub port : ℤ
  pub basedn : Str
  pub binddn : Str
  pub bindpasswd : Str
  pub prefix : Str
  pub suffix : Str
  pub use_tls : Bool
  pub use_ldaps : Bool
  pub tls_ca_cert_file : Str
  pub roles_attribute : Str
  pub roles_search : Str
  pub mode : LdapAuthMode

abbrev pub is_empty : Str → Bool
is_empty [] = true
is_empty (c ∷ rest) = false

-- The C string in a std::string ends at its first zero byte.
unfoldable pub c_str : Str → Str
c_str [] = []
c_str (c ∷ rest) = let tail = c_str rest in if c == 0 then [] else c ∷ tail

-- LDAPFunctions over the library's state; a return code of 0 is LDAP_SUCCESS. A message is a number,
-- an entry as well; the values of an attribute are as their bytes, `none` for a null bv_val.
pub record LdapFunctions (W : Type 0) : Type 0 where
  pub initialize : Str → W → (ℕ × Option ℕ) × W
  pub simple_bind : ℕ → Str → Str → W → ℕ × W
  pub search_ext_s : ℕ → Str → Str → W → (ℕ × Option ℕ) × W
  pub set_ca_cert_file : ℕ → Str → W → W
  pub start_tls_s : ℕ → W → ℕ × W
  pub unbind_ext : ℕ → W → W
  pub first_entry : ℕ → ℕ → W → Option ℕ × W
  pub get_dn : ℕ → ℕ → W → Option Str × W
  pub get_values_len : ℕ → ℕ → Str → W → Option (List (Option Str)) × W

-- A call with a handle, its arguments and, where the handler looks at it, its result.
pub data Call : Type 0 where
  set_option_call : (handle : ℕ) → Call
  start_tls_call : (handle rc : ℕ) → Call
  bind_call : (handle : ℕ) (dn password : Str) (rc : ℕ) → Call
  search_call : (handle : ℕ) (base filter : Str) (found : ℕ × Option ℕ) → Call
  first_entry_call : (handle message : ℕ) (entry : Option ℕ) → Call
  get_dn_call : (handle entry : ℕ) (dn : Option Str) → Call
  get_values_call : (handle entry : ℕ) → Call
  unbind_call : (handle : ℕ) → Call

pub record World (W : Type 0) : Type 0 where
  pub library : W
  pub open_handles : List ℕ
  pub misused : Bool
  pub calls : List Call

abbrev pub is_open : ℕ → List ℕ → Bool
is_open handle [] = false
is_open handle (h ∷ hs) = handle == h || is_open handle hs

abbrev pub without : ℕ → List ℕ → List ℕ
without handle [] = []
without handle (h ∷ hs) = if handle == h then hs else h ∷ without handle hs

-- The ledger at a call with a handle, and the library's new state; the last call is the first.
abbrev pub used : {W : Type 0} → ℕ → Call → W → World W → World W
used handle call w s = record s {
  library = w;
  misused = s.misused || not (is_open handle s.open_handles);
  calls = call ∷ s.calls;
}

abbrev pub scheme_of : Bool → Str
scheme_of true = b'l' ∷ b'd' ∷ b'a' ∷ b'p' ∷ b's' ∷ []
scheme_of false = b'l' ∷ b'd' ∷ b'a' ∷ b'p' ∷ []

abbrev pub int_string : ℤ → Str
int_string (pos n) = to_string n
int_string (negsuc n) = b'-' ∷ to_string (suc n)

unfoldable pub uri_of : LdapConfig → Str
uri_of config =
    scheme_of config.use_ldaps
    ++ b':' ∷ b'/' ∷ b'/' ∷ (config.server ++ b':' ∷ int_string config.port)

abbrev pub placeholder : Str
placeholder = b'{' ∷ b'u' ∷ b's' ∷ b'e' ∷ b'r' ∷ b'D' ∷ b'n' ∷ b'}' ∷ []

-- The filter of fetchRolesViaSearch: the first placeholder is replaced.
unfoldable pub roles_filter : LdapConfig → Str → Str
roles_filter config user_dn = elim (find_str placeholder config.roles_search) [
  | none ↦ config.roles_search
  | some at ↦
      take at config.roles_search ++ user_dn ++ drop (at + length placeholder) config.roles_search
]

unfoldable pub uid_filter : Str → Str
uid_filter username = b'(' ∷ b'u' ∷ b'i' ∷ b'd' ∷ b'=' ∷ (username ++ b')' ∷ [])

abbrev pub any_object : Str
any_object =
    b'(' ∷ b'o' ∷ b'b' ∷ b'j' ∷ b'e' ∷ b'c' ∷ b't' ∷ b'C' ∷ b'l' ∷ b'a' ∷ b's' ∷ b's' ∷ b'=' ∷ b'*'
    ∷ b')' ∷ []

-- The loop over vals.
unfoldable pub roles_of : List (Option Str) → List Str
roles_of [] = []
roles_of (none ∷ vals) = roles_of vals
roles_of (some val ∷ vals) = if is_empty val then roles_of vals else val ∷ roles_of vals

abbrev pub dn_or_empty : Option Str → Str
dn_or_empty none = []
dn_or_empty (some dn) = dn

abbrev pub at_most_one : Option Str → List Str
at_most_one none = []
at_most_one (some dn) = dn ∷ []

abbrev pub values_or_none : Option (List (Option Str)) → List (Option Str)
values_or_none none = []
values_or_none (some vals) = vals

module _ {W : Type 0} (lib : LdapFunctions W) where
  unfoldable pub destroy_handle : Option ℕ → World W → World W
  destroy_handle none s = s
  destroy_handle (some handle) s =
      record (used handle (unbind_call handle) (lib.unbind_ext handle s.library) s) {
        open_handles = without handle s.open_handles;
      }

  -- The return code of StartTLS, checked.
  unfoldable pub tls_checked : ℕ → ℕ → World W → Option ℕ × World W
  unfolding destroy_handle
  tls_checked handle zero s = (some handle, s)
  tls_checked handle (suc rc) s = (none, destroy_handle (some handle) s)

  unfoldable pub negotiate : Bool → ℕ → World W → Option ℕ × World W
  unfolding tls_checked
  negotiate false handle s = (some handle, s)
  negotiate true handle s =
      let (rc, w) = lib.start_tls_s handle s.library in
      tls_checked handle rc (used handle (start_tls_call handle rc) w s)

  unfoldable pub configure : LdapConfig → ℕ → World W → World W
  configure config handle s =
      if is_empty config.tls_ca_cert_file
      then s
      else used handle (set_option_call handle)
          (lib.set_ca_cert_file handle (c_str config.tls_ca_cert_file) s.library) s

  unfoldable pub initialized : LdapConfig → (ℕ × Option ℕ) → World W → Option ℕ × World W
  unfolding negotiate configure
  initialized config (rc, none) s = (none, s)
  initialized config (zero, some handle) s =
      negotiate (config.use_tls && not config.use_ldaps) handle
        (configure config handle (record s { open_handles = handle ∷ s.open_handles }))
  initialized config (suc rc, some handle) s =
      (none, record s { open_handles = handle ∷ s.open_handles })

  unfoldable pub create_handle : LdapConfig → World W → Option ℕ × World W
  unfolding initialized uri_of c_str
  create_handle config s =
      let (given, w) = lib.initialize (c_str (uri_of config)) s.library in
      initialized config given (record s { library = w })

  unfoldable pub bind_user : Option ℕ → Str → Str → World W → Bool × World W
  unfolding c_str
  bind_user none dn password s = (false, s)
  bind_user (some handle) dn password s =
      let (rc, w) = lib.simple_bind handle (c_str dn) (c_str password) s.library in
      (rc == 0, used handle (bind_call handle (c_str dn) (c_str password) rc) w s)

  -- The first entry of what a search gave, if it succeeded.
  unfoldable pub entry_of : ℕ → (ℕ × Option ℕ) → World W → Option ℕ × World W
  entry_of handle (zero, some message) s =
      let (entry, w) = lib.first_entry handle message s.library in
      (entry, used handle (first_entry_call handle message entry) w s)
  entry_of handle (zero, none) s = (none, s)
  entry_of handle (suc rc, message) s = (none, s)

  unfoldable pub search_entry : ℕ → Str → Str → World W → Option ℕ × World W
  unfolding c_str entry_of
  search_entry handle base filter s =
      let (found, w) = lib.search_ext_s handle (c_str base) (c_str filter) s.library in
      entry_of handle found (used handle (search_call handle (c_str base) (c_str filter) found) w s)

  -- The DN of an entry.
  unfoldable pub dn_of : ℕ → Option ℕ → World W → Option Str × World W
  dn_of handle none s = (none, s)
  dn_of handle (some entry) s =
      let (dn, w) = lib.get_dn handle entry s.library in
      (dn, used handle (get_dn_call handle entry dn) w s)

  unfoldable pub values_of : LdapConfig → ℕ → Option ℕ → World W → List (Option Str) × World W
  unfolding c_str
  values_of config handle none s = ([], s)
  values_of config handle (some entry) s =
      let (vals, w) = lib.get_values_len handle entry (c_str config.roles_attribute) s.library in
      (values_or_none vals, used handle (get_values_call handle entry) w s)

  unfoldable pub fetch_roles_via_attribute : LdapConfig → ℕ → Str → World W → List Str × World W
  unfolding search_entry roles_of values_of
  fetch_roles_via_attribute config handle user_dn s =
      let (entry, s') = search_entry handle user_dn any_object s in
      let (vals, s'') = values_of config handle entry s' in (roles_of vals, s'')

  unfoldable pub fetch_roles_via_search : LdapConfig → ℕ → Str → World W → List Str × World W
  unfolding search_entry dn_of roles_filter
  fetch_roles_via_search config handle user_dn s =
      let (entry, s') = search_entry handle config.basedn (roles_filter config user_dn) s in
      let (dn, s'') = dn_of handle entry s' in (at_most_one dn, s'')

  unfoldable pub fetch_roles : LdapConfig → ℕ → Str → World W → List Str × World W
  unfolding fetch_roles_via_attribute fetch_roles_via_search
  fetch_roles config handle user_dn s =
      if not (is_empty config.roles_attribute)
      then fetch_roles_via_attribute config handle user_dn s
      else if not (is_empty config.roles_search)
      then fetch_roles_via_search config handle user_dn s
      else ([], s)

  -- From the bind on: the roles and the end of the handle.
  unfoldable pub after_bind : LdapConfig → ℕ → Str → Bool → World W → (Bool × List Str) × World W
  unfolding fetch_roles destroy_handle
  after_bind config handle dn false s = ((false, []), destroy_handle (some handle) s)
  after_bind config handle dn true s =
      let (roles, s') = fetch_roles config handle dn s in
      ((true, roles), destroy_handle (some handle) s')

  -- A new handle, bound as the user; Simple mode, and the last two steps of Search mode.
  unfoldable pub bind_as : LdapConfig → Str → Str → Option ℕ → World W → (Bool × List Str) × World W
  unfolding bind_user after_bind
  bind_as config dn password none s = ((false, []), s)
  bind_as config dn password (some handle) s =
      let (bound, s') = bind_user (some handle) dn password s in
      after_bind config handle dn bound s'

  -- The administrator's handle: the user's DN, or an empty one.
  unfoldable pub after_admin_bind : LdapConfig → ℕ → Str → Bool → World W → Str × World W
  unfolding search_entry dn_of uid_filter destroy_handle
  after_admin_bind config handle username false s = ([], destroy_handle (some handle) s)
  after_admin_bind config handle username true s =
      let (entry, s') = search_entry handle config.basedn (uid_filter username) s in
      let (dn, s'') = dn_of handle entry s' in (dn_or_empty dn, destroy_handle (some handle) s'')

  unfoldable pub find_user : LdapConfig → Str → Option ℕ → World W → Str × World W
  unfolding bind_user after_admin_bind
  find_user config username none s = ([], s)
  find_user config username (some handle) s =
      let (bound, s') = bind_user (some handle) config.binddn config.bindpasswd s in
      after_admin_bind config handle username bound s'

  unfoldable pub bind_at : LdapConfig → Str → Str → World W → (Bool × List Str) × World W
  unfolding create_handle bind_as
  bind_at config dn password s =
      let (handle, s') = create_handle config s in bind_as config dn password handle s'

  -- The rest of Search mode, by the DN that was found.
  unfoldable pub bind_found : LdapConfig → Str → Str → World W → (Bool × List Str) × World W
  unfolding bind_at
  bind_found config [] password s = ((false, []), s)
  bind_found config (c ∷ dn) password s = bind_at config (c ∷ dn) password s

  -- The result, outRoles and what is left of the world.
  unfoldable pub authenticate : LdapConfig → Str → Str → World W → (Bool × List Str) × World W
  unfolding bind_at create_handle find_user bind_found
  authenticate config username password s = elim config.mode [
    | simple ↦ bind_at config (config.prefix ++ username ++ config.suffix) password s
    | search ↦
        let (handle, s1) = create_handle config s in
        let (dn, s2) = find_user config username handle s1 in bind_found config dn password s2
  ]
