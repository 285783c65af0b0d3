-- ===== src/User.antt =====
-- The auth store, frontend/src/entities/user/model.ts. `Auth` is the state of the store and the text
-- under "chessview-auth" in the browser's storage. `to_json` and `from_json` stand for what the
-- middleware `persist` writes after each `set`, and for `JSON.parse(raw).state?.accessToken`, which
-- is `none` where `JSON.parse` throws.
pub mod Laws
use chessview.Common.{
  ℕ, String, Bool, true, false, ◌&&◌, Option, none, some, List, [], ◌∷◌, is_some, if◌then◌else◌,
}
use chessview.Common.Text.{truthy, truthy?}

pub data Role : Type 0 where
  user admin : Role

-- The fields of `User` come first.
pub record AuthenticatedUser : Type 0 where
  pub id : String
  pub username : String
  pub rating : ℕ
  pub avatar_url : Option String
  pub email : String
  pub created_at : String
  pub bio : Option String
  pub role : Option Role
  pub banned_at : Option String

pub record UserState : Type 0 where
  pub user : Option AuthenticatedUser
  pub access_token : Option String
  pub refresh_token : Option String
  pub is_authenticated : Bool
  pub has_hydrated : Bool
  pub is_bootstrapping : Bool

unfoldable pub initial_state : UserState
initial_state = record {
  user = none;
  access_token = none;
  refresh_token = none;
  is_authenticated = false;
  has_hydrated = false;
  is_bootstrapping = false;
}

-- What `partialize` keeps.
pub record Persisted : Type 0 where
  pub user : Option AuthenticatedUser
  pub access_token : Option String
  pub refresh_token : Option String
  pub is_authenticated : Bool

unfoldable pub partialize : UserState → Persisted
partialize s = record {
  user = s.user;
  access_token = s.access_token;
  refresh_token = s.refresh_token;
  is_authenticated = s.is_authenticated;
}

pub record Auth : Type 0 where
  pub state : UserState
  pub stored : Option String

module _ (to_json : Persisted → String) where
  -- `set` of the store behind `persist`.
  unfoldable pub set : UserState → Auth → Auth
  unfolding partialize
  set s a = record { state = s; stored = some (to_json (partialize s)) }

  unfoldable pub remove_persisted_auth : Auth → Auth
  remove_persisted_auth a = record a { stored = none }

  unfoldable pub set_auth : AuthenticatedUser → String → String → Auth → Auth
  unfolding set
  set_auth account access refresh a =
      set
        (record a.state {
          user = some account;
          access_token = some access;
          refresh_token = some refresh;
          is_authenticated = true;
          is_bootstrapping = false;
        })
        a

  unfoldable pub clear_auth : Auth → Auth
  unfolding set remove_persisted_auth
  clear_auth a =
      set
        (record a.state {
          user = none;
          access_token = none;
          refresh_token = none;
          is_authenticated = false;
          is_bootstrapping = false;
        })
        (remove_persisted_auth a)

  unfoldable pub logout : Auth → Auth
  unfolding set remove_persisted_auth
  logout a =
      set
        (record a.state {
          user = none;
          access_token = none;
          refresh_token = none;
          is_authenticated = false;
          is_bootstrapping = false;
        })
        (remove_persisted_auth a)

  unfoldable pub set_tokens : String → String → Auth → Auth
  unfolding set
  set_tokens access refresh a =
      set
        (record a.state {
          access_token = some access;
          refresh_token = some refresh;
          is_authenticated = truthy access && is_some a.state.user;
        })
        a

  unfoldable pub set_user : AuthenticatedUser → Auth → Auth
  unfolding set
  set_user account a =
      set (record a.state { user = some account; is_authenticated = truthy? a.state.access_token })
        a

  unfoldable pub set_hydrated : Bool → Auth → Auth
  unfolding set
  set_hydrated hydrated a = set (record a.state { has_hydrated = hydrated }) a

  unfoldable pub set_bootstrapping : Bool → Auth → Auth
  unfolding set
  set_bootstrapping bootstrapping a = set (record a.state { is_bootstrapping = bootstrapping }) a

module _ (from_json : String → Option (Option String)) where
  -- The token in a raw text of the storage, null where there is none or it does not parse.
  abbrev pub read_token : Option String → Option String
  read_token none = none
  read_token (some raw) =
      if truthy raw then elim (from_json raw) [ none ↦ none | some token ↦ token ] else none

  unfoldable pub get_persisted_access_token : Auth → Option String
  get_persisted_access_token a =
      if truthy? a.state.access_token then a.state.access_token else read_token a.stored
