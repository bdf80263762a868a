-- ===== src/Tests/Samples.antt =====
-- Values that the tests share.
use perfeng_control_plane.Base.{ℕ, ◌*◌}
use perfeng_control_plane.Text.{Text, text}
use perfeng_control_plane.Time.{day}
use perfeng_control_plane.Run.{Reference, Request, Run}
use perfeng_control_plane.Run.History.{accepted_run}

-- 2026-09-03 00:00:00 UTC.
abbrev pub noon : ℕ
noon = 739861 * day

abbrev pub hash : Text
hash = text "0123456789abcdef0123456789abcdef0123456789abcdef0123456789abcdef"

abbrev pub reference : Reference
reference = record { id = text "shop"; version = text "1.2.0"; sha256 = hash }

abbrev pub request : Request
request = record {
  test_suite = text "checkout";
  catalogue = reference;
  profile = text "smoke";
  candidate = record {
    git_sha = text "0123456789abcdef0123456789abcdef01234567";
    image =
        text
          "ghcr.io/acme/shop@sha256:0123456789abcdef0123456789abcdef0123456789abcdef0123456789abcdef";
  };
  environment = reference;
  policy = reference;
}

abbrev pub fresh_run : Run
fresh_run = accepted_run (text "perf-20260903-000000-0a0b0c0d") request noon
