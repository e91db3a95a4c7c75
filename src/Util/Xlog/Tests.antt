-- ===== src/Util/Xlog/Tests.antt =====
-- A logger of util/xlog.go, and the theorems at it.
use goms.Base.{
  Bytes, codes, bytes_eq, bytes_Eq, lookup, Option, some, List, [], ◌∷◌, ◌++◌, Bool, true, ◌≡◌,
  refl,
}
use goms.Base.Int.{pos}
use goms.Base.Decimal.{format_nat}
use goms.Util.Xlog.{
  Param, text, other, LogTime, Content, GosLog, json_fields, lines_at, write_logs, text_format,
  pairs,
}
use goms.Util.Xlog.Lines.{lookup-json_fields}
use goms.Util.Xlog.Files.{lines_at-write_logs}

abbrev noon : LogTime
noon = record {
  year = 2024;
  month = 5;
  day = 6;
  hour = 12;
  min = 0;
  sec = 7;
  nanosecond = 123456789;
}

abbrev content : Content
content = record {
  message = codes "hello";
  now = noon;
  file = codes "/src/main.go";
  line = 12;
  level = codes "INFO";
  params = text (codes "msg") ∷ other 3 ∷ [];
}

abbrev logger : GosLog
logger = record {
  name = codes "gate";
  level = pos 0;
  log_file = some (codes "./log/gate.log.d1");
  time = codes "d1";
}

abbrev shown : Param → Bytes
shown (text s) = s
shown (other n) = format_nat n

screen :
    text_format shown content
    ≡ some (
        codes "2024-05-06 12:00:07.123456 "
        ++ ((27 ∷ codes "[37mINFO")
            ++ ((27 ∷ codes "[0m main.go:12 hello [")
                ++ ((27 ∷ codes "[37mmsg") ++ ((27 ∷ codes "[0m=3]") ++ (10 ∷ []))))))
unfolding text_format format_nat
screen = refl

lookup-json_fields_example : lookup (codes "msg") (json_fields content) ≡ some (other 3)
unfolding bytes_eq pairs
lookup-json_fields_example = lookup-json_fields (codes "msg") content

abbrev opens : Bytes → Bool
opens file = true

abbrev marshal : List (Bytes × Param) → Option Bytes
marshal fields = some (codes "{}")

lines_at-write_logs_example :
    lines_at
      (codes "./log")
      opens
      marshal
      (codes "./log/gate.log.d2")
      (write_logs
        (codes "./log")
        opens
        marshal
        ((codes "d1", content) ∷ (codes "d2", content) ∷ (codes "d2", content) ∷ [])
        logger
        []).1
    ≡ codes "{}" ∷ codes "{}" ∷ []
unfolding bytes_eq
lines_at-write_logs_example =
    lines_at-write_logs (codes "./log") opens marshal (codes "./log/gate.log.d2")
      ((codes "d1", content) ∷ (codes "d2", content) ∷ (codes "d2", content) ∷ []) logger [] refl
      refl
