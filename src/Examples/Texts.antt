-- ===== src/Examples/Texts.antt =====
-- The theorems about texts: identities, templates and queries.
use iac.Prelude.{◌≡◌, ◌↔◌, refl, ℕ, arith, ◌==◌, Option, some, String, str_eq, if◌then◌else◌}
use iac.Identity.{ResourceId, parse, display}
use iac.Identity.RoundTrip.{parse_iff}
use iac.Placeholders.{Dialect, sql}
use iac.Placeholders.Lexing.{sql-numbered}
use iac.Template.{Result, ok, err, missing_key, render}
use iac.Template.Meaning.{render-meaning, Template, print, IsClear, meaning}

abbrev main_file : ResourceId
main_file = record { kind = "file"; environment = "prod"; name = "etc/motd" }

parse_iff_example :
    (parse "file/prod/etc/motd" ≡ some main_file) ↔ ("file/prod/etc/motd" ≡ display main_file)
parse_iff_example = parse_iff "file/prod/etc/motd" main_file refl refl

abbrev port_only : String → Result (Option String)
port_only key = if str_eq key "port" then ok (some "8080") else err (missing_key key)

render_port : render port_only "listen {{ port }};" ≡ ok "listen 8080;"
unfolding render
render_port = refl

render-meaning_example :
    (t : Template) × (print t ≡ "listen {{ port }};")
    × IsClear t
    × (render port_only "listen {{ port }};" ≡ meaning port_only t)
render-meaning_example = render-meaning port_only "listen {{ port }};"

-- The numbers of one digit that the query below needs.
abbrev digit : ℕ → String
digit n = if n == 1 then "1" else "2"

sql-numbered_example :
    sql digit Dialect.postgres "a = ? AND b = 'it''s ?' AND c = ? -- ?"
    ≡ "a = $1 AND b = 'it''s ?' AND c = $2 -- ?"
sql-numbered_example = sql-numbered digit "a = ? AND b = 'it''s ?' AND c = ? -- ?" (omega arith)

sql_example : sql digit Dialect.sqlite "a = ?" ≡ "a = ?"
unfolding sql
sql_example = refl
