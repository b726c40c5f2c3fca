-- ===== src/Tests/Sources.antt =====
-- Source disks that the server daemon creates over a kernel module that was just loaded.
use greko.Base.{◌≡◌, refl, true, false, none, some, [], arith}
use greko.Base.Text.{codes}
use greko.Kernel.Device.Control.{any_device}
use greko.User.Server.Source.{Sources, Opening, create_source, disk_source_create, disk_source_mmap}
use greko.User.Server.Source.Created.{Granted, Opens, Created, create_source-Created}
use greko.Tests.Control.{granted, loaded, loaded-IsConsistent}
use greko.Tests.Daemons.{a_server}

abbrev no_sources : Sources
no_sources = record {
  server = record a_server { kernel = loaded };
  ds_count = 0;
  name = λ i. [];
  once = false;
  inserted = [];
}

abbrev all_opens : Opening
all_opens = record { opened = true; remapped = true; listening = true }

abbrev granted-Granted : Granted granted 65536
granted-Granted = record {
  copied = refl;
  vmalloc_user = refl;
  class_create = refl;
  bdget = refl;
  kzalloc = refl;
  gives = refl;
}

abbrev all_opens-Opens : Opens all_opens
all_opens-Opens = record { opened = refl; remapped = refl; listening = refl }

nameless : any_device loaded.device (codes "/dev/sdb") 10 0 ≡ false
unfolding any_device
nameless = refl

create_source-Created_example :
    (t1 : Sources) × (create_source granted granted all_opens (codes "/dev/sdb") 8 16384 no_sources
      ≡ some t1)
    × Created 0 65536 16384 (codes "/dev/sdb") no_sources t1
create_source-Created_example =
    create_source-Created granted granted all_opens (codes "/dev/sdb") 8 16384 65536 no_sources
      loaded-IsConsistent refl (omega arith) refl nameless refl granted-Granted all_opens-Opens

-- Behind five source disks, the names of the control devices have no entry for the sixth.
sixth_disk :
    disk_source_create all_opens (codes "/dev/sdb") 5 (record no_sources { ds_count = 5 }) ≡ none
unfolding disk_source_create disk_source_mmap
sixth_disk = refl
