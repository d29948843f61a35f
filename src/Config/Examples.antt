-- ===== src/Config/Examples.antt =====
-- Runs of the mail checks of inengine-core/src/config/validate.rs.
use in_engine_net.Prelude.{◌≡◌, refl, true, false, [], ◌∷◌, codes, bytes_eq}
use in_engine_net.Config.{pos, error_issue, warning_issue}
use in_engine_net.Config.Validate.{MailSpec, Checks, validate_mail, check_queue_name}

abbrev checks : Checks
checks = record {
  is_mailbox = λ text. true;
  is_loopback_address = λ text. false;
  path_exists = λ path. false;
}

abbrev mail : MailSpec
mail = record {
  host = codes "mail";
  port = pos 25;
  from = [];
  username = codes "u";
  password = [];
  encryption = codes "none";
}

mail_issues :
    validate_mail checks mail []
    ≡ warning_issue (codes "a mail user name is set without a password")
      ∷ error_issue (codes "the mail password would cross the network in plain text")
      ∷ []
unfolding validate_mail bytes_eq
mail_issues = refl

queue_name_with_space : check_queue_name (codes "my queue") ≡ false
unfolding check_queue_name
queue_name_with_space = refl
