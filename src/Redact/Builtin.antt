-- ===== src/Redact/Builtin.antt =====
-- The built-in redactors: the tables of `getRedactors` of pkg/redact/redact.go.
use troubleshoot.Prelude.{String, List, [], ◌∷◌}

-- A `LineRedactor` with its name.
pub record SingleLine : Type 0 where
  pub regex : String
  pub scan : String
  pub name : String

-- A selector with the expression for the line after it.
pub record DoubleLine : Type 0 where
  pub selector : SingleLine
  pub redactor : String

abbrev line : String → String → String → SingleLine
line regex scan name = record { regex = regex; scan = scan; name = name }

abbrev pair : String → String → String → String → DoubleLine
pair regex scan redactor name = record { selector = line regex scan name; redactor = redactor }

abbrev pub single_lines : List SingleLine
single_lines =
    line
      "(?i)(\\\\\\\"name\\\\\\\":\\\\\\\"[^\\\"]*SECRET_?ACCESS_?KEY\\\\\\\",\\\\\\\"value\\\\\\\":\\\\\\\")(?P<mask>[^\\\"]*)(\\\\\\\")"
      "secret_?access_?key"
      "Redact values for environment variables that look like AWS Secret Access Keys"
    ∷ line
        "(?i)(\\\\\\\"name\\\\\\\":\\\\\\\"[^\\\"]*ACCESS_?KEY_?ID\\\\\\\",\\\\\\\"value\\\\\\\":\\\\\\\")(?P<mask>[^\\\"]*)(\\\\\\\")"
        "access_?key_?id" "Redact values for environment variables that look like AWS Access Keys"
    ∷ line
        "(?i)(\\\\\\\"name\\\\\\\":\\\\\\\"[^\\\"]*OWNER_?ACCOUNT\\\\\\\",\\\\\\\"value\\\\\\\":\\\\\\\")(?P<mask>[^\\\"]*)(\\\\\\\")"
        "owner_?account"
        "Redact values for environment variables that look like AWS Owner or Account numbers"
    ∷ line
        "(?i)(\\\\\\\"name\\\\\\\":\\\\\\\"[^\\\"]*password[^\\\"]*\\\\\\\",\\\\\\\"value\\\\\\\":\\\\\\\")(?P<mask>[^\\\"]*)(\\\\\\\")"
        "password" "Redact values for environment variables with names beginning with 'password'"
    ∷ line
        "(?i)(\\\\\\\"name\\\\\\\":\\\\\\\"[^\\\"]*token[^\\\"]*\\\\\\\",\\\\\\\"value\\\\\\\":\\\\\\\")(?P<mask>[^\\\"]*)(\\\\\\\")"
        "token" "Redact values for environment variables with names beginning with 'token'"
    ∷ line
        "(?i)(\\\\\\\"name\\\\\\\":\\\\\\\"[^\\\"]*database[^\\\"]*\\\\\\\",\\\\\\\"value\\\\\\\":\\\\\\\")(?P<mask>[^\\\"]*)(\\\\\\\")"
        "database" "Redact values for environment variables with names beginning with 'database'"
    ∷ line
        "(?i)(\\\\\\\"name\\\\\\\":\\\\\\\"[^\\\"]*user[^\\\"]*\\\\\\\",\\\\\\\"value\\\\\\\":\\\\\\\")(?P<mask>[^\\\"]*)(\\\\\\\")"
        "user" "Redact values for environment variables with names beginning with 'user'"
    ∷ line
        "(?i)(https?|ftp)(:\\/\\/)(?P<mask>[^:\\\"\\/]+){1}(:)(?P<mask>[^@\\\"\\/]+){1}(?P<host>@[^:\\/\\s\\\"]+){1}(?P<port>:[\\d]+)?"
        "https?|ftp" "Redact connection strings with username and password"
    ∷ line
        "\\b(?P<mask>[^:\\\"\\/]*){1}(:)(?P<mask>[^:\\\"\\/]*){1}(@tcp\\()(?P<mask>[^:\\\"\\/]*){1}(?P<port>:[\\d]*)?(\\)\\/)(?P<mask>[\\w\\d\\S-_]+){1}\\b"
        "@tcp" "Redact database connection strings that contain username and password"
    ∷ line
        "\\b(\\w*:\\/\\/)(?P<mask>[^:\\\"\\/]*){1}(:)(?P<mask>[^:\\\"\\/]*){1}(@)(?P<mask>[^:\\\"\\/]*){1}(?P<port>:[\\d]*)?(\\/)(?P<mask>[\\w\\d\\S-_]+){1}\\b"
        "\\b(\\w*:\\/\\/)([^:\\\"\\/]*)(:)([^@\\\"\\/]*)(@)([^:\\\"\\/]*)(:[\\d]*)?(\\/)([\\w\\d\\S-_]+)\\b"
        "Redact database connection strings that contain username and password"
    ∷ line "(?i)(Data Source *= *)(?P<mask>[^\\;]+)(;)" "data source"
        "Redact 'Data Source' values commonly found in database connection strings"
    ∷ line "(?i)(location *= *)(?P<mask>[^\\;]+)(;)" "location"
        "Redact 'location' values commonly found in database connection strings"
    ∷ line "(?i)(User ID *= *)(?P<mask>[^\\;]+)(;)" "user id"
        "Redact 'User ID' values commonly found in database connection strings"
    ∷ line "(?i)(password *= *)(?P<mask>[^\\;]+)(;)" "password"
        "Redact 'password' values commonly found in database connection strings"
    ∷ line "(?i)(Server *= *)(?P<mask>[^\\;]+)(;)" "server"
        "Redact 'Server' values commonly found in database connection strings"
    ∷ line "(?i)(Database *= *)(?P<mask>[^\\;]+)(;)" "database"
        "Redact 'Database' values commonly found in database connection strings"
    ∷ line "(?i)(Uid *= *)(?P<mask>[^\\;]+)(;)" "uid"
        "Redact 'UID' values commonly found in database connection strings"
    ∷ line "(?i)(Pwd *= *)(?P<mask>[^\\;]+)(;)" "pwd"
        "Redact 'Pwd' values commonly found in database connection strings"
    ∷ []

abbrev pub double_lines : List DoubleLine
double_lines =
    pair "(?i)\"name\": *\"[^\\\"]*SECRET_?ACCESS_?KEY[^\\\"]*\"" "secret_?access_?key"
      "(?i)(\"value\": *\")(?P<mask>.*[^\\\"]*)(\")"
      "Redact AWS Secret Access Key values in multiline JSON"
    ∷ pair "(?i)\"name\": *\"[^\\\"]*ACCESS_?KEY_?ID[^\\\"]*\"" "access_?key_?id"
        "(?i)(\"value\": *\")(?P<mask>.*[^\\\"]*)(\")"
        "Redact AWS Access Key ID values in multiline JSON"
    ∷ pair "(?i)\"name\": *\"[^\\\"]*OWNER_?ACCOUNT[^\\\"]*\"" "owner_?account"
        "(?i)(\"value\": *\")(?P<mask>.*[^\\\"]*)(\")"
        "Redact AWS Owner and Account Numbers in multiline JSON"
    ∷ pair "(?i)\"name\": *\".*password[^\\\"]*\"" "password"
        "(?i)(\"value\": *\")(?P<mask>.*[^\\\"]*)(\")"
        "Redact password environment variables in multiline JSON"
    ∷ pair "(?i)\"name\": *\".*token[^\\\"]*\"" "token"
        "(?i)(\"value\": *\")(?P<mask>.*[^\\\"]*)(\")"
        "Redact values that look like API tokens in multiline JSON"
    ∷ pair "(?i)\"name\": *\".*database[^\\\"]*\"" "database"
        "(?i)(\"value\": *\")(?P<mask>.*[^\\\"]*)(\")"
        "Redact database connection strings in multiline JSON"
    ∷ pair "(?i)\"name\": *\".*user[^\\\"]*\"" "user" "(?i)(\"value\": *\")(?P<mask>.*[^\\\"]*)(\")"
        "Redact usernames in multiline JSON"
    ∷ pair "(?i)\"entity\": *\"(osd|client|mgr)\\..*[^\\\"]*\"" "(osd|client|mgr)"
        "(?i)(\"key\": *\")(?P<mask>.{38}==[^\\\"]*)(\")"
        "Redact 'key' values found in Ceph auth lists"
    ∷ []

-- the resource and the path of its value
abbrev pub custom_resources : List (String × String)
custom_resources =
    ("installers.cluster.kurl.sh", "*.spec.kubernetes.bootstrapToken")
    ∷ ("installers.cluster.kurl.sh", "*.spec.kubernetes.certKey")
    ∷ ("installers.cluster.kurl.sh", "*.spec.kubernetes.kubeadmToken")
    ∷ []
