-- ===== src/Sftp/Orphans.antt =====
-- src/components/sftp/SftpBrowser.tsx: whether the session that was opened is told to disconnect.
use connect_hub.Base.{◌≡◌, refl, String, [], ◌∷◌}
use connect_hub.Bridge.{ok, failed}
use connect_hub.Sftp.{mounted_browser, caught, after_sftp_connect, after_home, unmount}

module _ (friendly : String → String) where
  -- Where `localHomeDir` fails after `sftpConnect` has opened a session, the session is told to
  -- disconnect.
  pub failed_later-ended :
      (id e : String)
      → (after_home friendly (failed e) (after_sftp_connect friendly (ok id) mounted_browser)).ended
        ≡ id ∷ []
  unfolding after_sftp_connect after_home caught
  failed_later-ended id e = refl

  -- Where it fails before, the session that opens afterwards is not, even once the browser is
  -- closed.
  pub failed_before-orphaned :
      (id e : String)
      → (unmount friendly (
          after_sftp_connect friendly
            (ok id)
            (after_home friendly (failed e) mounted_browser))).ended
        ≡ []
  unfolding after_sftp_connect after_home caught unmount
  failed_before-orphaned id e = refl
