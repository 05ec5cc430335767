-- ===== src/Registration/Tests.antt =====
-- registration.go on given registrations.
use go_pandora_pay.Prelude.{true, replicate}
use go_pandora_pay.Registration.{Registration}

abbrev staked_registration : Registration
staked_registration = record {
  public_key = replicate 33 1;
  index = 2;
  version = 0;
  staked = true;
  spend_public_key = replicate 33 3;
}
