-- ===== src/Dashboard/Settings/Members.antt =====
-- client/dashboard/src/app/dashboard/team/page.tsx: the members that the page starts with and lists.
-- What the sign-in service knows of the user is given, the first letters of the names among it.
use motionmesh.Base.{
  Bool, ◌||◌, Option, none, some, String, List, [], ◌∷◌, if◌then◌else◌, str_eq, ◌⧺◌, or_else,
}
use motionmesh.Dashboard.Settings.{Member}

pub record User : Type 0 where
  pub id : String
  pub full_name : Option String
  pub email : Option String
  pub created_at : Option String
  pub first_letter : Option String
  pub last_letter : Option String

-- `a ?? b`
abbrev pub else_text : Option String → String → String
else_text none other = other
else_text (some s) other = s

abbrev pub owner_of : String → User → Member
owner_of now u = record {
  id = u.id;
  name = else_text u.full_name (else_text u.email "You");
  email = else_text u.email "";
  role = "owner";
  joined_at = else_text u.created_at now;
  avatar_initials = else_text u.first_letter "" ⧺ else_text u.last_letter "";
}

-- `initialMembers`
unfoldable pub initial_members : String → Option User → List Member
initial_members now none = []
initial_members now (some u) = owner_of now u ∷ []

-- `getRoleColor(role)`
unfoldable pub get_role_color : String → String
get_role_color role =
    if str_eq role "owner"
    then "bg-warning/20 text-warning"
    else if str_eq role "admin"
    then "bg-info/20 text-info"
    else if str_eq role "developer"
    then "bg-surface-raised text-text-primary"
    else "bg-surface text-text-muted"

-- A line of the table: whether it has a shield, and whether its button is off.
pub record MemberLine : Type 0 where
  pub initials : String
  pub name : String
  pub email : String
  pub role : String
  pub has_shield : Bool
  pub is_fixed : Bool

unfoldable pub member_lines : List Member → List MemberLine
member_lines [] = []
member_lines (m ∷ ms) =
    (record {
      initials = or_else m.avatar_initials "?";
      name = m.name;
      email = m.email;
      role = m.role;
      has_shield = str_eq m.role "owner" || str_eq m.role "admin";
      is_fixed = str_eq m.role "owner";
    })
    ∷ member_lines ms
