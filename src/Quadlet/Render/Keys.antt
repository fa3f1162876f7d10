-- ===== src/Quadlet/Render/Keys.antt =====
-- The keys that render.go writes are words that open no section.
use vm_to_quadlet.Base.{
  String, ◌<>◌, ◌≡◌, refl, inl, inr, Bool, true, false, List, [], ◌∷◌, ◌++◌, map, ◌==◌, All,
  All-append, Bool-cases,
}
use vm_to_quadlet.Base.Int.{show, is_positive}
use vm_to_quadlet.Quadlet.{
  UnitSection, ContainerSection, ServiceSection, InstallSection, VolumeSection,
}
use vm_to_quadlet.Quadlet.Render.{
  Directive, entry?, entries, flag, unit_directives, container_directives, service_directives,
  install_directives, volume_directives,
}
use vm_to_quadlet.Quadlet.Render.Reading.{is_key, HasKey, is_word}

-- Every directive of a list has a key that opens no section and is one word.
pub record HasKeys (ds : List Directive) : Type 0 where
  pub keys : All HasKey ds

pub both : {xs ys : List Directive} → HasKeys xs → HasKeys ys → HasKeys (xs ++ ys)
both {xs} {ys} h k = record { keys = All-append HasKey xs ys h.keys k.keys }

pub keys_of_entry : (key value : String) → is_key key ≡ true → HasKeys (entry? key value)
unfolding entry?
keys_of_entry key value h = elim (Bool-cases (value == "")) [
  | inl empty ↦ rw empty (record { keys = tt })
  | inr full ↦ rw full (record { keys = (h, tt) })
]

pub HasKey-map :
    (key : String) (values : List String)
    → is_key key ≡ true
    → All HasKey (map (λ value. (key, value)) values)
HasKey-map key [] h = tt
HasKey-map key (v ∷ vs) h = (h, HasKey-map key vs h)

pub keys_of_entries :
    (key : String) (values : List String) → is_key key ≡ true → HasKeys (entries key values)
unfolding entries
keys_of_entries key values h = record { keys = HasKey-map key values h }

pub keys_of_flag :
    (on : Bool) (key value : String) → is_key key ≡ true → HasKeys (flag on key value)
unfolding flag
keys_of_flag true key value h = record { keys = (h, tt) }
keys_of_flag false key value h = record { keys = tt }

pub unit_directives-HasKeys : (u : UnitSection) → HasKeys (unit_directives u)
unfolding unit_directives is_key is_word
unit_directives-HasKeys u =
    both (keys_of_entry "Description" u.description refl)
      (both (keys_of_entries "After" u.after refl) (keys_of_entries "Requires" u.requires refl))

pub service_directives-HasKeys : (s : ServiceSection) → HasKeys (service_directives s)
unfolding service_directives is_key is_word
service_directives-HasKeys s = both (keys_of_entry "Type" s.type refl) (
    both (keys_of_flag s.remain_after_exit "RemainAfterExit" "yes" refl)
      (keys_of_entry "Restart" s.restart refl))

pub install_directives-HasKeys : (i : InstallSection) → HasKeys (install_directives i)
unfolding install_directives is_key is_word
install_directives-HasKeys i = keys_of_entries "WantedBy" i.wanted_by refl

pub volume_directives-HasKeys : (v : VolumeSection) → HasKeys (volume_directives v)
unfolding volume_directives is_key is_word
volume_directives-HasKeys v =
    both (keys_of_entry "Driver" v.driver refl)
      (both (keys_of_entry "Image" v.image refl) (keys_of_entry "VolumeName" v.volume_name refl))

pub container_directives-HasKeys : (c : ContainerSection) → HasKeys (container_directives c)
unfolding container_directives is_key is_word
container_directives-HasKeys c = both (keys_of_entry "Image" c.image refl) (
    both (keys_of_entry "Entrypoint" c.entrypoint refl) (
      both (keys_of_entry "Exec" c.exec refl) (
        both (keys_of_entries "EnvironmentFile" c.environment_files refl) (
          both (keys_of_entries "Environment" c.environments refl) (
            both (keys_of_entries "Volume" c.volumes refl) (
              both (keys_of_entries "Mount" c.mounts refl) (
                both (keys_of_entries "AddDevice" c.add_devices refl) (
                  both (keys_of_entries "AddCapability" c.add_capabilities refl) (
                    both (keys_of_entries "DropCapability" c.drop_capabilities refl) (
                      both (keys_of_flag c.no_new_privileges "NoNewPrivileges" "true" refl) (
                        both (keys_of_entry "User" c.user refl) (
                          both (keys_of_entries "PublishPort" c.publish_ports refl) (
                            both (keys_of_entry "MemoryLimit" c.memory_limit refl) (
                              both (keys_of_entry "Network" c.network refl) (
                                both
                                  (keys_of_entries "PodmanArgs"
                                    (map (λ vf. "--volumes-from " <> vf) c.volumes_from) refl)
                                  (both
                                    (keys_of_flag (is_positive c.stop_timeout) "StopTimeout"
                                      (show c.stop_timeout) refl)
                                    (keys_of_entries "Sysctl" c.sysctls refl)))))))))))))))))
