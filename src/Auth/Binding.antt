-- ===== src/Auth/Binding.antt =====
-- What the answer of an authentication rests on: the calls of its own run.
use open_arango_dbcore.Prelude.{
  ℕ, zero, suc, ◌≡◌, ◌≢◌, refl, sym, subst, Bool, true, false, Option, none, some, List, [], ◌∷◌,
  ◌++◌, ◌==◌, ==_iff, Str,
}
use open_arango_dbcore.Auth.{
  LdapAuthMode, simple, search, LdapConfig, c_str, LdapFunctions, World, Call, bind_call,
  search_call, first_entry_call, get_dn_call, unbind_call, used, uid_filter, destroy_handle,
  create_handle, bind_user, entry_of, search_entry, dn_of, dn_or_empty, fetch_roles, after_bind,
  bind_as, after_admin_bind, find_user, bind_at, bind_found, authenticate,
}
use open_arango_dbcore.Auth.Calls.{
  Happened, nothing, last, earlier, Happened-destroy_handle, Happened-create_handle,
  Happened-fetch_roles,
}

-- (uid=...), the filter of RFC 4515 for one attribute's value.
abbrev pub uid_is : Str → Str
uid_is username = b'(' ∷ b'u' ∷ b'i' ∷ b'd' ∷ b'=' ∷ (username ++ b')' ∷ [])

-- The calls that let a user in. In Simple mode the directory took the password for the DN made of the
-- prefix, the username and the suffix. In Search mode it took the administrator's password, then
-- answered the search for the username below the base, then gave the first entry of the answer, then
-- the DN of that entry, which is not empty, and then took the password for that DN.
abbrev pub Authentic : LdapAuthMode → LdapConfig → Str → Str → List Call → Type 0
Authentic simple config username password calls =
    (handle : ℕ) × Happened
      (bind_call handle (c_str (config.prefix ++ username ++ config.suffix)) (c_str password) 0
        ∷ [])
      calls
Authentic search config username password calls =
    (dn : Str) × (admin : ℕ) × (message : ℕ) × (entry : ℕ) × (handle : ℕ) × (dn ≢ [])
    × Happened
        (bind_call handle (c_str dn) (c_str password) 0
          ∷ get_dn_call admin entry (some dn)
          ∷ first_entry_call admin message (some entry)
          ∷ search_call admin (c_str config.basedn) (c_str (uid_is username)) (0, some message)
          ∷ bind_call admin (c_str config.binddn) (c_str config.bindpasswd) 0
          ∷ [])
        calls

-- An answer, and the calls after it: a bind behind `past` that the directory took, or no roles.
abbrev pub Granted : List Call → Str → Str → Bool × List Str → List Call → Type 0
Granted past dn password (true, roles) calls =
    (handle : ℕ) × Happened (bind_call handle (c_str dn) (c_str password) 0 ∷ past) calls
Granted past dn password (false, roles) calls = roles ≡ []

-- An entry that a search gave, behind `past`.
abbrev Entered : List Call → ℕ → Str → Str → Option ℕ → List Call → Type 0
Entered past handle base filter none calls = Unit {0}
Entered past handle base filter (some entry) calls =
    (message : ℕ) × Happened
      (first_entry_call handle message (some entry)
        ∷ search_call handle base filter (0, some message)
        ∷ past)
      calls

abbrev searched_for : LdapConfig → Str → ℕ → ℕ → ℕ → Str → List Call
searched_for config username admin message entry dn =
    get_dn_call admin entry (some dn)
    ∷ first_entry_call admin message (some entry)
    ∷ search_call admin (c_str config.basedn) (c_str (uid_is username)) (0, some message)
    ∷ bind_call admin (c_str config.binddn) (c_str config.bindpasswd) 0
    ∷ []

-- The user's DN, where the administrator's handle found one.
abbrev Found : LdapConfig → Str → Str → List Call → Type 0
Found config username [] calls = Unit {0}
Found config username (c ∷ dn) calls =
    (admin : ℕ) × (message : ℕ) × (entry : ℕ) × Happened
      (searched_for config username admin message entry (c ∷ dn)) calls

Entered-by :
    (past calls : List Call) (handle message : ℕ) (base filter : Str) (entry : Option ℕ)
    → Happened (search_call handle base filter (0, some message) ∷ past) calls
    → Entered past handle base filter entry (first_entry_call handle message entry ∷ calls)
Entered-by past calls handle message base filter none happened = tt
Entered-by past calls handle message base filter (some entry) happened =
    (message, last (first_entry_call handle message (some entry)) _ calls happened)

Found-by :
    (config : LdapConfig) (username : Str) (admin message entry : ℕ) (dn : Option Str)
    (calls : List Call)
    → Happened
        (first_entry_call admin message (some entry)
          ∷ search_call admin (c_str config.basedn) (c_str (uid_is username)) (0, some message)
          ∷ bind_call admin (c_str config.binddn) (c_str config.bindpasswd) 0
          ∷ [])
        calls
    → Found config username (dn_or_empty dn) (get_dn_call admin entry dn ∷ calls)
Found-by config username admin message entry none calls happened = tt
Found-by config username admin message entry (some []) calls happened = tt
Found-by config username admin message entry (some (c ∷ dn)) calls happened =
    (admin, message, entry, last (get_dn_call admin entry (some (c ∷ dn))) _ calls happened)

-- A call more leaves what was found.
Found-earlier :
    (config : LdapConfig) (username dn : Str) (call : Call) (calls : List Call)
    → Found config username dn calls
    → Found config username dn (call ∷ calls)
Found-earlier config username [] call calls found = tt
Found-earlier config username (c ∷ dn) call calls (admin, message, entry, happened) =
    (admin, message, entry, earlier _ call calls happened)

accepted_bind :
    (past calls : List Call) (handle rc : ℕ) (dn password : Str)
    → Happened past calls
    → (rc == 0) ≡ true
    → Happened (bind_call handle dn password 0 ∷ past) (bind_call handle dn password rc ∷ calls)
accepted_bind past calls handle rc dn password happened accepted =
    subst
      (λ code.
        Happened (bind_call handle dn password 0 ∷ past)
          (bind_call handle dn password code ∷ calls))
      (sym ((==_iff rc 0).0 accepted)) (last (bind_call handle dn password 0) past calls happened)

module _ {W : Type 0} (lib : LdapFunctions W) where
  Granted-after_bind :
      (past : List Call) (config : LdapConfig) (handle : ℕ) (dn password : Str) (bound : Bool)
      (s : World W)
      → (bound ≡ true → Happened (bind_call handle (c_str dn) (c_str password) 0 ∷ past) s.calls)
      → Granted past dn password
          (after_bind lib config handle dn bound s).0
          (after_bind lib config handle dn bound s).1.calls
  unfolding after_bind
  Granted-after_bind past config handle dn password false s happened = refl
  Granted-after_bind past config handle dn password true s happened =
      let wanted : List Call = bind_call handle (c_str dn) (c_str password) 0 ∷ past in
      (
        handle,
        Happened-destroy_handle lib wanted handle (fetch_roles lib config handle dn s).1
            (Happened-fetch_roles lib wanted config handle dn s (happened refl)),
      )

  Granted-bind_as :
      (past : List Call) (config : LdapConfig) (dn password : Str) (handle : Option ℕ) (s : World W)
      → Happened past s.calls
      → Granted past dn password
          (bind_as lib config dn password handle s).0
          (bind_as lib config dn password handle s).1.calls
  unfolding bind_as bind_user
  Granted-bind_as past config dn password none s happened = refl
  Granted-bind_as past config dn password (some handle) s happened =
      let (rc, w) = lib.simple_bind handle (c_str dn) (c_str password) s.library in
      Granted-after_bind past config handle dn password (rc == 0)
        (bind_user lib (some handle) dn password s).1
        (accepted_bind past s.calls handle rc (c_str dn) (c_str password) happened)

  Granted-bind_at :
      (past : List Call) (config : LdapConfig) (dn password : Str) (s : World W)
      → Happened past s.calls
      → Granted past dn password
          (bind_at lib config dn password s).0
          (bind_at lib config dn password s).1.calls
  unfolding bind_at
  Granted-bind_at past config dn password s happened =
      let (handle, s') = create_handle lib config s in
      Granted-bind_as past config dn password handle s'
        (Happened-create_handle lib past config s happened)

  Entered-entry_of :
      (past : List Call) (handle : ℕ) (base filter : Str) (found : ℕ × Option ℕ) (s : World W)
      → Happened (search_call handle base filter found ∷ past) s.calls
      → Entered past handle base filter
          (entry_of lib handle found s).0
          (entry_of lib handle found s).1.calls
  unfolding entry_of
  Entered-entry_of past handle base filter (zero, some message) s happened =
      Entered-by past s.calls handle message base filter
        (lib.first_entry handle message s.library).0 happened
  Entered-entry_of past handle base filter (zero, none) s happened = tt
  Entered-entry_of past handle base filter (suc rc, message) s happened = tt

  Found-dn_of :
      (config : LdapConfig) (username : Str) (admin : ℕ) (entry : Option ℕ) (s : World W)
      → Entered
          (bind_call admin (c_str config.binddn) (c_str config.bindpasswd) 0 ∷ [])
          admin
          (c_str config.basedn)
          (c_str (uid_is username))
          entry
          s.calls
      → Found config username
          (dn_or_empty (dn_of lib admin entry s).0)
          (dn_of lib admin entry s).1.calls
  unfolding dn_of
  Found-dn_of config username admin none s entered = tt
  Found-dn_of config username admin (some entry) s (message, happened) =
      Found-by config username admin message entry (lib.get_dn admin entry s.library).0 s.calls
        happened

  Found-after_admin_bind :
      (config : LdapConfig) (admin : ℕ) (username : Str) (bound : Bool) (s : World W)
      → (bound ≡ true
          → Happened
              (bind_call admin (c_str config.binddn) (c_str config.bindpasswd) 0 ∷ [])
              s.calls)
      → Found config username
          (after_admin_bind lib config admin username bound s).0
          (after_admin_bind lib config admin username bound s).1.calls
  unfolding after_admin_bind search_entry destroy_handle uid_filter
  Found-after_admin_bind config admin username false s happened = tt
  Found-after_admin_bind config admin username true s happened =
      let base : Str = c_str config.basedn in
      let filter : Str = c_str (uid_is username) in
      let (found, w) = lib.search_ext_s admin base filter s.library in
      let (entry, s1) = search_entry lib admin config.basedn (uid_filter username) s in
      let (dn, s2) = dn_of lib admin entry s1 in
      Found-earlier config username (dn_or_empty dn) (unbind_call admin) s2.calls (
        Found-dn_of config username admin entry s1 (
          Entered-entry_of _ admin base filter found
            (used admin (search_call admin base filter found) w s)
            (last (search_call admin base filter found) _ s.calls (happened refl))))

  Found-find_user :
      (config : LdapConfig) (username : Str) (handle : Option ℕ) (s : World W)
      → Found config username
          (find_user lib config username handle s).0
          (find_user lib config username handle s).1.calls
  unfolding find_user bind_user
  Found-find_user config username none s = tt
  Found-find_user config username (some admin) s =
      let (rc, w) =
        lib.simple_bind admin (c_str config.binddn) (c_str config.bindpasswd) s.library in
      Found-after_admin_bind config admin username (rc == 0)
        (bind_user lib (some admin) config.binddn config.bindpasswd s).1
        (accepted_bind [] s.calls admin rc (c_str config.binddn) (c_str config.bindpasswd)
          (nothing s.calls))

-- The two answers.
answered :
    (past : List Call) (dn password : Str) (answer : Bool × List Str) (calls : List Call)
    → Granted past dn password answer calls
    → (answer.0 ≡ true
        → (handle : ℕ) × Happened (bind_call handle (c_str dn) (c_str password) 0 ∷ past) calls)
      × (answer.0 ≡ false → answer.1 ≡ [])
answered past dn password (true, roles) calls granted = (λ accepted. granted, λ rejected. cc)
answered past dn password (false, roles) calls granted = (λ accepted. cc, λ rejected. granted)

abbrev Answered : LdapAuthMode → LdapConfig → Str → Str → Bool × List Str → List Call → Type 0
Answered mode config username password answer calls =
    (answer.0 ≡ true → Authentic mode config username password calls)
    × (answer.0 ≡ false → answer.1 ≡ [])

some_dn : (c : ℕ) (dn : Str) → c ∷ dn ≢ []
some_dn c dn = λ same. cc

module _ {W : Type 0} (lib : LdapFunctions W) where
  Answered-bind_found :
      (config : LdapConfig) (username password dn : Str) (s : World W)
      → Found config username dn s.calls
      → Answered search config username password
          (bind_found lib config dn password s).0
          (bind_found lib config dn password s).1.calls
  unfolding bind_found
  Answered-bind_found config username password [] s found = (λ accepted. cc, λ rejected. refl)
  Answered-bind_found config username password (c ∷ dn) s (admin, message, entry, happened) =
      let past : List Call = searched_for config username admin message entry (c ∷ dn) in
      let (answer, s') = bind_at lib config (c ∷ dn) password s in
      let (granted, refused) =
        answered past (c ∷ dn) password answer s'.calls
          (Granted-bind_at lib past config (c ∷ dn) password s happened) in
      (
        λ accepted.
            let (handle, bound) = granted accepted in
            (c ∷ dn, admin, message, entry, handle, some_dn c dn, bound),
        refused,
      )

  Answered-modes :
      (mode : LdapAuthMode) (config : LdapConfig) (username password : Str) (s : World W)
      → config.mode ≡ mode
      → Answered mode config username password
          (authenticate lib config username password s).0
          (authenticate lib config username password s).1.calls
  unfolding authenticate
  Answered-modes simple config username password s chosen =
      let dn : Str = config.prefix ++ username ++ config.suffix in
      let (answer, s') = bind_at lib config dn password s in
      rw (chosen) (
        answered [] dn password answer s'.calls
          (Granted-bind_at lib [] config dn password s (nothing s.calls)))
  Answered-modes search config username password s chosen =
      let (handle, s1) = create_handle lib config s in
      let (dn, s2) = find_user lib config username handle s1 in
      rw (chosen) (
        Answered-bind_found config username password dn s2
          (Found-find_user lib config username handle s1))

-- An authentication that succeeds rests on calls of its own: from an empty ledger, if authenticate
-- returns true then the calls that let the user in happened in this run, in their order, each on the
-- result of the one before: in Simple mode a bind with the prefix, the username and the suffix and
-- the password that the directory took; in Search mode the administrator's bind, the search for the
-- username, its first entry, that entry's DN, which is not empty, and the bind with that DN and the
-- password. If it returns false, it gives no roles.
pub authenticate-Authentic :
    {W : Type 0} (lib : LdapFunctions W) (config : LdapConfig) (username password : Str)
    (s : World W)
    → s.calls ≡ []
    → ((authenticate lib config username password s).0.0 ≡ true
        → Authentic config.mode config username password
            (authenticate lib config username password s).1.calls)
      × ((authenticate lib config username password s).0.0 ≡ false
          → (authenticate lib config username password s).0.1 ≡ [])
authenticate-Authentic lib config username password s fresh =
    Answered-modes lib config.mode config username password s refl
