-- ===== src/Models.antt =====
-- backend/app/models: the rows of the tables. Identifiers are numbers, times are microseconds; a
-- table is the list of its rows, and each SQL statement of a repository is a function on that list.
use ai_soc.Base.{ℕ, ◌*◌, Bool, String, Option, List}
use ai_soc.Base.Text.{Text}

-- models/auth.py, `User`
pub record User : Type 0 where
  pub id : ℕ
  pub email : Text
  pub full_name : Text
  pub password_hash : Text
  pub role_name : String
  pub is_active : Bool
  pub last_login_at : Option ℕ
  pub credentials_changed_at : ℕ
  pub created_by : Option ℕ
  pub updated_at : ℕ

-- `AuthSession`
pub record AuthSession : Type 0 where
  pub id : ℕ
  pub family_id : ℕ
  pub user_id : ℕ
  pub token_hash : Text
  pub expires_at : ℕ
  pub revoked_at : Option ℕ
  pub replaced_by_id : Option ℕ
  pub source_ip : Option Text
  pub user_agent : Option Text
  pub last_used_at : Option ℕ

-- `ServiceApiKey`
pub record ServiceApiKey : Type 0 where
  pub id : ℕ
  pub name : Text
  pub prefix : Text
  pub key_hash : Text
  pub scopes : List String
  pub is_active : Bool
  pub expires_at : Option ℕ
  pub created_by : ℕ
  pub last_used_at : Option ℕ
  pub revoked_at : Option ℕ

-- `AuditLog`, without its free-form details and the request's method and path.
pub record AuditLog : Type 0 where
  pub actor_type : String
  pub actor_id : Option ℕ
  pub actor_label : Option Text
  pub action : String
  pub resource_type : Option String
  pub resource_id : Option ℕ
  pub outcome : String

abbrev pub second : ℕ
second = 1000000

abbrev pub day : ℕ
day = 86400 * second

-- models/event.py, the columns that the modelled code reads; metadata holds texts.
pub record Event : Type 0 where
  pub id : ℕ
  pub event_id : String
  pub timestamp : ℕ
  pub source : Text
  pub source_type : String
  pub event_type : String
  pub category : String
  pub severity : Option String
  pub username : Option Text
  pub source_ip : Option Text
  pub status : Option String
  pub resource : Option Text
  pub bytes_received : Option ℕ
  pub event_metadata : List (String × Text)
  pub created_at : ℕ

-- models/alert.py. The confidence is `Numeric(4, 2)`: a number of hundredths.
pub record Alert : Type 0 where
  pub id : ℕ
  pub rule_id : String
  pub event_id : ℕ
  pub severity : String
  pub confidence : ℕ
  pub status : String
  pub source_ip : Option Text
  pub username : Option Text
  pub first_seen : ℕ
  pub last_seen : ℕ
  pub created_at : ℕ

-- An entry of an incident's timeline. Its texts are functions of the rows that it shows.
pub data TimelineEntry : Type 0 where
  event_entry : Event → TimelineEntry
  alert_entry : Alert → Option Event → TimelineEntry

-- models/incident.py, without the title and the description, whose texts depend on the other columns.
pub record Incident : Type 0 where
  pub id : ℕ
  pub status : String
  pub severity : String
  pub risk_score : ℕ
  pub correlation_key : Text
  pub primary_username : Option Text
  pub primary_source_ip : Option Text
  pub first_seen : ℕ
  pub last_seen : ℕ
  pub timeline : List TimelineEntry

pub record IncidentAlert : Type 0 where
  pub incident_id : ℕ
  pub alert_id : ℕ
