-- ===== src/Queue/Tests.antt =====
-- What psql prints for a queue, a value with a quote, and a host.
use Prim.Native.String.{◌++◌}
use hermes_ops.Prelude.{
  ◌≡◌, refl, String, false, some, [], ◌∷◌, size, every, contains, lines, split, split_once, repeats,
  digit, alnum,
}
use hermes_ops.Result.{ok, err}
use hermes_ops.Queue.{
  is_digits, int_from, read_ascii, int_or_zero, lower_is, is_yes, honcho_error, index_error,
}
use hermes_ops.Queue.Names.{
  starts_then, is_address, is_host, is_user, is_destination, validate_ssh_host, forbidden,
  escape_sql,
}
use hermes_ops.Queue.Summary.{add_type, add_row, add_rows, collect_queue_summary}
use hermes_ops.Queue.Details.{ssh, has_text, psql, session_counts, second_count}
use hermes_ops.Queue.Literals.{read_literal, IsOver, read_literal-escape_sql}
use hermes_ops.Queue.Hosts.{begins, validate_ssh_host-begins}

test_summary :
    collect_queue_summary read_ascii
      "dream|true|3|1\nrepresentation|false|4|0\nrepresentation|true|2|2\n(3 rows)"
    ≡ ok (record {
      whole = record { total = 9; pending = 4; done = 5; errored = 3 };
      by_type =
          ("dream", record { total = 3; pending = 0; done = 3; errored = 1 })
          ∷ ("representation", record { total = 6; pending = 4; done = 2; errored = 2 })
          ∷ [];
    })
unfolding collect_queue_summary add_rows add_row add_type lines split int_or_zero read_ascii
    is_digits int_from is_yes lower_is every
test_summary = refl

abbrev printed : String
printed = "dream|true|3|1\nrepresentation|false|4|0\nrepresentation|true|2|2"

-- Where psql prints one column, there is no second one to read.
test_columns : session_counts read_ascii (split "|" "12") ≡ err index_error
unfolding session_counts second_count int_or_zero read_ascii is_digits int_from every split
test_columns = refl

test_error :
    psql (record { returncode = 0; stdout = "ERROR:  relation \"queue\" does not exist" })
    ≡ err honcho_error
unfolding psql ssh has_text
test_error = refl

ended : IsOver ";"
unfolding IsOver
ended = refl

read_literal-escape_sql_example :
    read_literal (escape_sql (some "o'; DROP TABLE queue") ++ ("'" ++ ";"))
    ≡ some ("o'; DROP TABLE queue", ";")
read_literal-escape_sql_example = read_literal-escape_sql ";" ended "o'; DROP TABLE queue"

abbrev host : String
host = "ubuntu@100.67.206.76"

accepted : validate_ssh_host alnum digit host ≡ ok host
unfolding validate_ssh_host contains is_destination split_once is_host is_user is_address
    starts_then every repeats size split
accepted = refl

validate_ssh_host-begins_example :
    (host ≡ host) × (begins 45 host ≡ false) × (contains (forbidden alnum digit) host ≡ false)
validate_ssh_host-begins_example = validate_ssh_host-begins alnum digit refl host host accepted
